-- ===== src/Jobs/Handover.antt =====
-- The effect on the table of the methods that hand jobs over: `claim`, `recover_expired_leases`,
-- `retry` and `enqueue`.
use teldrive_lab.Prelude.{
  ℕ, ◌+◌, String, true, none, some, List, [], ◌∷◌, ◌≡◌, refl, arith, ◌==◌, inl, inr, ℤ, pos, negsuc,
  positive, Option-cases, All, filter_by, eq_iff,
}
use teldrive_lab.Exec.{ok}
use teldrive_lab.Sql.{update_where, select_one, order_by}
use teldrive_lab.Sql.Laws.{
  All-tautology, All-map, select_one_test, All-filter_by, All-filter_by_test,
}
use teldrive_lab.Sql.Keys.{key_decides, selected_is_only}
use teldrive_lab.Sql.Order.{All-order_by}
use teldrive_lab.Jobs.{Row, is_active}
use teldrive_lab.Jobs.Store.{Table}
use teldrive_lab.Jobs.Updates.{update, owned}
use teldrive_lab.Jobs.Claims.{
  claim, claim_for, next_claim, claimable, claimed_row, recover_expired_leases, expired,
  recovered_row, retry, retry_for, retry_read, retry_write, retried_row, claim_order, first,
}
use teldrive_lab.Jobs.Invariant.{
  IsRow, IsValid, RowStep, IsSound, Effect, update_where-Effect, edges,
}
use teldrive_lab.Jobs.Effects.{get_table, stays}

-- A lease that has run out takes its job back to the queue.
pub recover_expired_leases-Effect :
    (now : ℕ) (t : Table) → IsValid t → Effect t (recover_expired_leases now t).1
unfolding recover_expired_leases
recover_expired_leases-Effect now t v =
    update_where-Effect (expired now) (recovered_row now) t (λ r. refl) (λ r. refl)
      (All-tautology _ t (λ r m h. grind (arith, edges))) v

retried_row_step :
    (r : Row) (delay : ℕ) (code message : String) (now : ℕ)
    → IsRow r
    → is_active r.state ≡ true
    → RowStep r (retried_row (r.attempts + 1) r.max_attempts delay code message now r)
      × IsRow (retried_row (r.attempts + 1) r.max_attempts delay code message now r)
retried_row_step r delay code message now h active = grind (arith, edges)

-- The SELECT of `retry` fixes the row that its UPDATE changes, where nothing comes between them.
pub retry_for_table :
    (k w : String) (delay : ℕ) (code message : String) (now : ℕ) (t : Table) (a : Row)
    → select_one (owned k w is_active) t ≡ some a
    → (retry_for k w delay code message now t).1
      ≡ update_where
          (λ r. r.job_id == k)
          (retried_row (a.attempts + 1) a.max_attempts delay code message now)
          t
unfolding retry_for retry_read retry_write update
retry_for_table k w delay code message now t a e = ground (
  arith,
  get_table k (
      update_where (λ r. r.job_id == k)
        (retried_row (a.attempts + 1) a.max_attempts delay code message now) t),
)

retry_for-none :
    (k w : String) (delay : ℕ) (code message : String) (now : ℕ) (t : Table)
    → select_one (owned k w is_active) t ≡ none
    → (retry_for k w delay code message now t).1 ≡ t
unfolding retry_for retry_read
retry_for-none k w delay code message now t e = ground arith

retried_row-IsSound :
    (k w : String) (delay : ℕ) (code message : String) (now : ℕ) (t : Table) (a : Row)
    → IsValid t
    → select_one (owned k w is_active) t ≡ some a
    → IsSound
        (λ r. r.job_id == k)
        (retried_row (a.attempts + 1) a.max_attempts delay code message now)
        t
retried_row-IsSound k w delay code message now t a v e =
    All-map (λ r. (r.job_id == k) ≡ true → r ≡ a)
      (λ r.
        (r.job_id == k) ≡ true
        → IsRow r
        → RowStep r (retried_row (a.attempts + 1) a.max_attempts delay code message now r)
          × IsRow (retried_row (a.attempts + 1) a.max_attempts delay code message now r))
      t
      (λ r only m h. rw (only m) (
        retried_row_step a delay code message now (rw (only m) at h)
          (ground (arith, select_one_test (owned k w is_active) t a e))))
      (selected_is_only (λ r. r.job_id) (owned k w is_active) k t a
        (λ r m. ground (arith, eq_iff r.job_id k)) v.keys e)

retry_for-Effect :
    (k w : String) (delay : ℕ) (code message : String) (now : ℕ) (t : Table)
    → IsValid t
    → Effect t (retry_for k w delay code message now t).1
retry_for-Effect k w delay code message now t v =
    elim (Option-cases (select_one (owned k w is_active) t)) [
      | inl e ↦ rw (retry_for-none k w delay code message now t e) (stays t v)
      | inr (a, e) ↦ rw (retry_for_table k w delay code message now t a e) (
          update_where-Effect (λ r. r.job_id == k)
            (retried_row (a.attempts + 1) a.max_attempts delay code message now) t (λ r. refl)
            (λ r. refl) (retried_row-IsSound k w delay code message now t a v e) v)
    ]

pub retry-Effect :
    (k w code message : String) (delay : ℤ) (now : ℕ) (t : Table)
    → IsValid t
    → Effect t (retry k w code message delay now t).1
unfolding retry
retry-Effect k w code message (pos d) now t v = retry_for-Effect k w d code message now t v
retry-Effect k w code message (negsuc d) now t v = stays t v

first-All {ℓ} :
    (P : Row → Type ℓ) (rows : List Row) (a : Row) → first rows ≡ some a → All P rows → P a
first-All P [] a h all = absurd (cc)
first-All P (r ∷ rows) a h all = let same : r ≡ a = cc in rw (← same) all.0

-- What holds of every row of the table holds of the row that `claim` selects.
pub next_claim-All {ℓ} :
    (P : Row → Type ℓ) (now : ℕ) (t : Table) (a : Row) → next_claim now t ≡ some a → All P t → P a
unfolding next_claim
next_claim-All P now t a h all =
    first-All P (order_by claim_order (filter_by (claimable now) t)) a h (
      All-order_by claim_order P (filter_by (claimable now) t)
        (All-filter_by P (claimable now) t all))

-- The row that `claim` selects is queued and due.
pub next_claim-claimable :
    (now : ℕ) (t : Table) (a : Row) → next_claim now t ≡ some a → claimable now a ≡ true
unfolding next_claim
next_claim-claimable now t a h =
    first-All (λ r. claimable now r ≡ true) (order_by claim_order (filter_by (claimable now) t)) a h
      (All-order_by claim_order (λ r. claimable now r ≡ true) (filter_by (claimable now) t)
        (All-filter_by_test (claimable now) t))

-- It is the only row with its key.
pub next_claim_only :
    (now : ℕ) (t : Table) (a : Row)
    → IsValid t
    → next_claim now t ≡ some a
    → All (λ r. (r.job_id == a.job_id) ≡ true → r ≡ a) t
next_claim_only now t a v h =
    next_claim-All (λ x. All (λ y. (y.job_id == x.job_id) ≡ true → y ≡ x) t) now t a h
      (key_decides (λ r. r.job_id) t v.keys)

pub claim_for_table :
    (w : String) (lease now : ℕ) (t : Table) (a : Row)
    → next_claim now t ≡ some a
    → (claim_for w lease now t).1
      ≡ update_where (λ r. r.job_id == a.job_id) (claimed_row w lease now) t
unfolding claim_for update
claim_for_table w lease now t a h = ground (
  arith,
  get_table a.job_id (update_where (λ r. r.job_id == a.job_id) (claimed_row w lease now) t),
  get_table a.job_id t,
)

pub claim_for-none :
    (w : String) (lease now : ℕ) (t : Table)
    → next_claim now t ≡ none
    → claim_for w lease now t ≡ (ok none, t)
unfolding claim_for
claim_for-none w lease now t h = ground arith

claimed_row_step :
    (w : String) (lease now : ℕ) (r : Row)
    → IsRow r
    → claimable now r ≡ true
    → RowStep r (claimed_row w lease now r) × IsRow (claimed_row w lease now r)
unfolding claimable
claimed_row_step w lease now r h c = grind (arith, edges)

claim_for-Effect :
    (w : String) (lease now : ℕ) (t : Table) → IsValid t → Effect t (claim_for w lease now t).1
claim_for-Effect w lease now t v = elim (Option-cases (next_claim now t)) [
  | inl e ↦ rw (claim_for-none w lease now t e) (stays t v)
  | inr (a, e) ↦ rw (claim_for_table w lease now t a e) (
      update_where-Effect (λ r. r.job_id == a.job_id) (claimed_row w lease now) t (λ r. refl)
        (λ r. refl)
        (All-map (λ r. (r.job_id == a.job_id) ≡ true → r ≡ a)
          (λ r.
            (r.job_id == a.job_id) ≡ true
            → IsRow r
            → RowStep r (claimed_row w lease now r) × IsRow (claimed_row w lease now r))
          t
          (λ r only m h.
            rw (only m)
              (claimed_row_step w lease now a (rw (only m) at h) (next_claim-claimable now t a e)))
          (next_claim_only now t a v e))
        v)
]

pub claim-Effect :
    (w : String) (lease : ℤ) (now : ℕ) (t : Table) → IsValid t → Effect t (claim w lease now t).1
unfolding claim
claim-Effect w lease now t v = elim (Option-cases (positive lease)) [
  | inl e ↦ rw e (stays t v)
  | inr (n, e) ↦ rw e (claim_for-Effect w n now t v)
]

-- ===== src/Jobs/Atomic/Handover.antt =====
-- `claim`, `retry` and `enqueue` raise before they write, or not at all.
use teldrive_lab.Prelude.{
  ℕ, ◌+◌, String, Bool, true, none, some, [], ◌∷◌, ◌++◌, ◌≡◌, ◌≢◌, refl, arith, ◌==◌, inl, inr, ℤ,
  pos, negsuc, positive, Bool-cases, Option-cases, count_by, eq_refl, or_text,
}
use teldrive_lab.Exec.{Error, Any-cases, ok, err}
use teldrive_lab.Sql.{update_where, select_one}
use teldrive_lab.Jobs.{JobType, Row, is_active}
use teldrive_lab.Jobs.Store.{Table, Request, find, get, enqueue, insert, check_parent, new_row}
use teldrive_lab.Jobs.Updates.{update, owned}
use teldrive_lab.Jobs.Claims.{
  claim, claim_for, next_claim, claimed_row, retry, retry_for, retry_read, retry_write, retried_row,
}
use teldrive_lab.Jobs.Handover.{next_claim-All, claim_for-none}
use teldrive_lab.Jobs.Enqueue.{enqueue_table, check_parent_table}
use teldrive_lab.Jobs.Find.{members_counted}
use teldrive_lab.Jobs.Atomic.Updates.{get_found, updated_found, selected_counted}

-- `retry` raises before its UPDATE or not at all.
pub retry_for_error :
    (k w : String) (delay : ℕ) (code message : String) (now : ℕ) (t : Table) (e : Error)
    → (retry_for k w delay code message now t).0 ≡ err e
    → (retry_for k w delay code message now t).1 ≡ t
unfolding retry_for retry_read retry_write update
retry_for_error k w delay code message now t e h =
    elim (Option-cases (select_one (owned k w is_active) t)) [
      | inl n ↦ ground arith
      | inr (a, s) ↦
          let f = retried_row (a.attempts + 1) a.max_attempts delay code message now in
          absurd (
            get_found k (update_where (λ r. r.job_id == k) f t)
              (updated_found (λ r. r.job_id == k) f "" k t (λ r m. m) (λ r. refl)
                (λ z.
                  selected_counted (owned k w is_active) (λ r. r.job_id == k) t a
                    (λ r m. ground arith) s z))
              e (ground arith))
    ]

claim_for-get :
    (w : String) (lease now : ℕ) (t : Table) (a : Row) (e : Error)
    → next_claim now t ≡ some a
    → (claim_for w lease now t).0 ≡ err e
    → (get a.job_id (update_where (λ r. r.job_id == a.job_id) (claimed_row w lease now) t)).0
      ≡ err e
unfolding claim_for update
claim_for-get w lease now t a e n h =
    elim (Any-cases
      (get a.job_id (update_where (λ r. r.job_id == a.job_id) (claimed_row w lease now) t)).0) [
        | inl (job, fine) ↦ ground arith
        | inr (x, raised) ↦ ground arith
      ]

pub claim_for_error :
    (w : String) (lease now : ℕ) (t : Table) (e : Error)
    → (claim_for w lease now t).0 ≡ err e
    → (claim_for w lease now t).1 ≡ t
claim_for_error w lease now t e h = elim (Option-cases (next_claim now t)) [
  | inl n ↦ rw (claim_for-none w lease now t n) refl
  | inr (a, n) ↦
      let same = λ (r : Row). r.job_id == a.job_id in
      absurd (
        get_found a.job_id (update_where same (claimed_row w lease now) t)
          (updated_found same (claimed_row w lease now) "" a.job_id t (λ r m. m) (λ r. refl)
            (next_claim-All (λ x. (q : Row → Bool) → q x ≡ true → count_by q t ≢ 0) now t a n
              (members_counted t) same (eq_refl a.job_id)))
          e (claim_for-get w lease now t a e n h))
]

find_snoc :
    (k : String) (t : Table) (r : Row) → (r.job_id == k) ≡ true → find k (t ++ r ∷ []) ≢ none
unfolding find select_one
find_snoc k [] r h = ground arith
find_snoc k (x ∷ t) r h = elim (Bool-cases (x.job_id == k)) [
  | inl m ↦ rw m (λ z. cc)
  | inr m ↦ rw m (find_snoc k t r h)
]

enqueue-get :
    (ty : JobType) (q : Request) (fresh : String) (now n : ℕ) (t : Table)
    → positive q.max_attempts ≡ some n
    → (check_parent q.parent_job_id t).0 ≡ ok tt
    → let k = or_text q.job_id fresh in
      find k t ≡ none → enqueue ty q fresh now t ≡ get k (t ++ new_row ty q k n now ∷ [])
unfolding enqueue insert
enqueue-get ty q fresh now n t e accepted new = ground (arith, check_parent_table q.parent_job_id t)

pub enqueue_error :
    (ty : JobType) (q : Request) (fresh : String) (now : ℕ) (t : Table) (e : Error)
    → (enqueue ty q fresh now t).0 ≡ err e
    → (enqueue ty q fresh now t).1 ≡ t
enqueue_error ty q fresh now t e h = elim (Option-cases (positive q.max_attempts)) [
  | inl n ↦ unfold enqueue in rw n refl
  | inr (n, p) ↦ elim (enqueue_table ty q fresh now n t p) [
    | inl same ↦ same
    | inr (accepted, new, grown) ↦
        let k = or_text q.job_id fresh in
        let r = new_row ty q k n now in
        absurd (
          get_found k (t ++ r ∷ []) (find_snoc k t r (eq_refl k)) e
            (rw (enqueue-get ty q fresh now n t p accepted new) at h))
  ]
]

pub claim_error :
    (w : String) (lease : ℤ) (now : ℕ) (t : Table) (e : Error)
    → (claim w lease now t).0 ≡ err e
    → (claim w lease now t).1 ≡ t
unfolding claim
claim_error w lease now t e h = elim (Option-cases (positive lease)) [
  | inl n ↦ rw n refl
  | inr (n, p) ↦ rw p (claim_for_error w n now t e (rw p at h))
]

pub retry_error :
    (k w code message : String) (delay : ℤ) (now : ℕ) (t : Table) (e : Error)
    → (retry k w code message delay now t).0 ≡ err e
    → (retry k w code message delay now t).1 ≡ t
unfolding retry
retry_error k w code message (pos d) now t e h = retry_for_error k w d code message now t e h
retry_error k w code message (negsuc d) now t e h = refl

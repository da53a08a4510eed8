-- ===== src/Jobs/Claiming.antt =====
-- Which job `claim` hands out.
use mathlib.Core.Path.{subst}
use teldrive_lab.Prelude.{
  ℕ, String, true, none, some, List, [], ◌∷◌, ◌≡◌, ◌≢◌, refl, ◌∙◌, ap, sym, arith, ◌==◌, inl, inr,
  ◌⊎◌, All, if◌then◌else◌, Bool-cases, Option-cases, filter_by, ℤ, positive, eq_refl, eq_iff,
}
use teldrive_lab.Exec.{ok}
use teldrive_lab.Sql.{update_where, order_by}
use teldrive_lab.Sql.Laws.{All-filter_by_inv}
use teldrive_lab.Sql.Order.{IsOrdered, order_by-IsOrdered, All-order_by_inv}
use teldrive_lab.Jobs.{Job, Row}
use teldrive_lab.Jobs.Store.{Table, find, get, to_job}
use teldrive_lab.Jobs.Updates.{update}
use teldrive_lab.Jobs.Claims.{
  claimable, claim_order, first, next_claim, claimed_row, claim_for, claim,
}
use teldrive_lab.Jobs.Invariant.{IsValid}
use teldrive_lab.Jobs.Handover.{
  next_claim-All, next_claim-claimable, claim_for_table, claim_for-none, claim-Effect,
}
use teldrive_lab.Jobs.Find.{changed, find-update_id, members_found}

claim_order_total : (a b : Row) → (claim_order a b ≡ true) ⊎ (claim_order b a ≡ true)
unfolding claim_order
claim_order_total a b = elim (Bool-cases (claim_order a b)) [
  | inl h ↦ inl h
  | inr h ↦ inr (ground arith)
]

claim_order_trans :
    (a b c : Row) → claim_order a b ≡ true → claim_order b c ≡ true → claim_order a c ≡ true
unfolding claim_order
claim_order_trans a b c h g = ground arith

first_best :
    (rows : List Row) (a : Row)
    → IsOrdered claim_order rows
    → first rows ≡ some a
    → All (λ r. claim_order a r ≡ true) rows
first_best [] a o h = tt
first_best (r ∷ rows) a o h =
    let same : r ≡ a = cc in
    subst (λ x. All (λ y. claim_order x y ≡ true) (r ∷ rows)) same (self r, o.0)
  where
    self : (r : Row) → claim_order r r ≡ true
    self r = elim (claim_order_total r r) [ inl h ↦ h | inr h ↦ h ]

-- The selected row comes before every other claimable row.
pub next_claim_best :
    (now : ℕ) (t : Table) (a : Row)
    → next_claim now t ≡ some a
    → All (λ r. claimable now r ≡ true → claim_order a r ≡ true) t
unfolding next_claim
next_claim_best now t a h =
    All-filter_by_inv (λ r. claim_order a r ≡ true) (claimable now) t
      (All-order_by_inv claim_order (λ r. claim_order a r ≡ true) (filter_by (claimable now) t)
        (first_best (order_by claim_order (filter_by (claimable now) t)) a
          (order_by-IsOrdered claim_order claim_order_total claim_order_trans
            (filter_by (claimable now) t))
          h))

first-none : (rows : List Row) (P : Row → Type 0) → first rows ≡ none → All P rows
first-none [] P h = tt
first-none (r ∷ rows) P h = absurd (cc)

-- No row is selected just when none is claimable.
pub next_claim-none :
    (now : ℕ) (t : Table) → next_claim now t ≡ none → All (λ r. claimable now r ≡ true → ⊥) t
unfolding next_claim
next_claim-none now t h =
    All-filter_by_inv (λ r. ⊥) (claimable now) t
      (All-order_by_inv claim_order (λ r. ⊥) (filter_by (claimable now) t)
        (first-none (order_by claim_order (filter_by (claimable now) t)) (λ r. ⊥) h))

-- The outcome of a claim that hands out the row `a`.
pub record Takes (w : String) (n now : ℕ) (t : Table) (job : Job) (a : Row) : Type 0 where
  pub stored : find a.job_id t ≡ some a
  pub was_claimable : claimable now a ≡ true
  pub best : All (λ r. claimable now r ≡ true → claim_order a r ≡ true) t
  pub returned : job ≡ to_job (claimed_row w n now a)
  pub others :
      (k : String)
      → find k (claim_for w n now t).1
        ≡ (if a.job_id == k then some (claimed_row w n now a) else find k t)

claim_get :
    (w : String) (n now : ℕ) (t : Table) (a : Row)
    → next_claim now t ≡ some a
    → find a.job_id (update_where (λ r. r.job_id == a.job_id) (claimed_row w n now) t)
      ≡ some (claimed_row w n now a)
    → (claim_for w n now t).0 ≡ ok (some (to_job (claimed_row w n now a)))
unfolding claim_for update get
claim_get w n now t a h e = ground arith

claim_for-Takes :
    (w : String) (n now : ℕ) (t : Table) (job : Job)
    → IsValid t
    → (claim_for w n now t).0 ≡ ok (some job)
    → (a : Row) × Takes w n now t job a
claim_for-Takes w n now t job v h = elim (Option-cases (next_claim now t)) [
  | inl none_left ↦ absurd (cc (h, claim_for-none w n now t none_left))
  | inr (a, chosen) ↦
      let same = λ (r : Row). r.job_id == a.job_id in
      let stored : find a.job_id t ≡ some a =
        next_claim-All (λ x. find x.job_id t ≡ some x) now t a chosen (members_found t v) in
      let after : (k : String)
          → find k (update_where same (claimed_row w n now) t)
            ≡ (if a.job_id == k then changed (claimed_row w n now) (find k t) else find k t) =
        λ k. find-update_id a.job_id k (claimed_row w n now) t (λ r. refl) in
      (
        a,
        record {
          stored = stored;
          was_claimable = next_claim-claimable now t a chosen;
          best = next_claim_best now t a chosen;
          returned = ground (
            arith,
            claim_get w n now t a chosen (ground (arith, after a.job_id, stored, eq_refl a.job_id)),
            h,
          );
          others = λ k.
              rw (claim_for_table w n now t a chosen)
                (ground (arith, after k, stored, eq_iff a.job_id k));
        },
      )
]

-- A claim hands out a job only for a lease n that is positive, and by taking a row that was queued
-- and due and comes before every other such row in the order of priority, then age. It returns
-- that row as RUNNING for the worker with its lease until now + n; under every other key the
-- table holds what it held.
pub claim-Takes :
    (w : String) (lease : ℤ) (now : ℕ) (t : Table) (job : Job)
    → IsValid t
    → (claim w lease now t).0 ≡ ok (some job)
    → (n : ℕ) × (positive lease ≡ some n) × (a : Row) × Takes w n now t job a
unfolding claim
claim-Takes w lease now t job v h = elim (Option-cases (positive lease)) [
  | inl e ↦ absurd (cc (rw e at h))
  | inr (n, e) ↦ let (a, taken) = claim_for-Takes w n now t job v (rw e at h) in (n, e, a, taken)
]

claim_for_idle :
    (w : String) (n now : ℕ) (t : Table)
    → IsValid t
    → (claim_for w n now t).0 ≡ ok none
    → All (λ r. claimable now r ≡ true → ⊥) t × ((claim_for w n now t).1 ≡ t)
claim_for_idle w n now t v h = elim (Option-cases (next_claim now t)) [
  | inl none_left ↦ (next_claim-none now t none_left, rw (claim_for-none w n now t none_left) refl)
  | inr (a, chosen) ↦
      let stored : find a.job_id t ≡ some a =
        next_claim-All (λ x. find x.job_id t ≡ some x) now t a chosen (members_found t v) in
      absurd (
        ground (
          arith,
          claim_get w n now t a chosen (
              ground (
                arith,
                find-update_id a.job_id a.job_id (claimed_row w n now) t (λ r. refl),
                stored,
                eq_refl a.job_id,
              )),
          h,
        ))
]

-- A claim returns nothing only where no row is queued and due, and then changes nothing.
pub claim_idle :
    (w : String) (lease : ℤ) (now : ℕ) (t : Table)
    → IsValid t
    → (claim w lease now t).0 ≡ ok none
    → All (λ r. claimable now r ≡ true → ⊥) t × ((claim w lease now t).1 ≡ t)
unfolding claim
claim_idle w lease now t v h = elim (Option-cases (positive lease)) [
  | inl e ↦ absurd (cc (rw e at h))
  | inr (n, e) ↦ rw e (claim_for_idle w n now t v (rw e at h))
]

claim_is_for :
    (w : String) (lease : ℤ) (n now : ℕ) (t : Table)
    → positive lease ≡ some n
    → claim w lease now t ≡ claim_for w n now t
unfolding claim
claim_is_for w lease n now t e = rw e refl

-- What was just claimed cannot be selected again.
claimed_is_gone :
    (w : String) (n now now' : ℕ) (t : Table) (job : Job) (a a' : Row)
    → Takes w n now t job a
    → find a'.job_id (claim_for w n now t).1 ≡ some a'
    → claimable now' a' ≡ true
    → a.job_id ≢ a'.job_id
unfolding claimable
claimed_is_gone w n now now' t job a a' taken stored again same =
    ground (arith, taken.others a'.job_id, eq_iff a.job_id a'.job_id)

taken_id :
    (w : String) (n now : ℕ) (t : Table) (job : Job) (a : Row)
    → Takes w n now t job a
    → job.job_id ≡ a.job_id
unfolding to_job
taken_id w n now t job a taken = ap (λ (j : Job). j.job_id) taken.returned

-- Two claims in a row, by any workers at any times, never hand out one job twice.
pub no_double_claim :
    (w w' : String) (lease lease' : ℤ) (now now' : ℕ) (t : Table) (job job' : Job)
    → IsValid t
    → (claim w lease now t).0 ≡ ok (some job)
    → (claim w' lease' now' (claim w lease now t).1).0 ≡ ok (some job')
    → job.job_id ≢ job'.job_id
no_double_claim w w' lease lease' now now' t job job' v h h' same =
    let (n, e, a, taken) = claim-Takes w lease now t job v h in
    let t' : Table = (claim w lease now t).1 in
    let (n', e', a', taken') =
      claim-Takes w' lease' now' t' job' (claim-Effect w lease now t v).1 h' in
    claimed_is_gone w n now now' t job a a' taken
      (rw (← claim_is_for w lease n now t e) taken'.stored) taken'.was_claimable
      (sym (taken_id w n now t job a taken) ∙ same ∙ taken_id w' n' now' t' job' a' taken')

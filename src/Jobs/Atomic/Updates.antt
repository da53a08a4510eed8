-- ===== src/Jobs/Atomic/Updates.antt =====
-- A method that changes one row, and raises, has matched no row.
use teldrive_lab.Prelude.{
  ℕ, String, Bool, true, false, Option, none, some, [], ◌∷◌, ◌≡◌, ◌≢◌, refl, arith, ◌==◌, inl, inr,
  ℤ, pos, negsuc, positive, leb, Bool-cases, Option-cases, eqb, count_by,
}
use teldrive_lab.Exec.{Error, err}
use teldrive_lab.Sql.{update_where, select_one}
use teldrive_lab.Sql.Laws.{update_where_none, select_one_weaken}
use teldrive_lab.Jobs.{
  JobState, Row, is_active, is_running, is_verifying, is_paused, is_cancellable,
}
use teldrive_lab.Jobs.Store.{Table, find, get, whole}
use teldrive_lab.Jobs.Updates.{
  update, update_one, owned, in_state, renew_lease, update_progress, begin_verification,
  complete_verification, complete, pause, resume, fail, cancel,
}
use teldrive_lab.Jobs.Effects.{update_one_table}

-- `get` raises only for a key that is not there.
pub get_found : (k : String) (t : Table) → find k t ≢ none → (e : Error) → (get k t).0 ≢ err e
unfolding get
get_found k t h e = elim (Option-cases (find k t)) [
  | inl missing ↦ absurd (h missing)
  | inr (r, found) ↦ ground arith
]

module _ (p : Row → Bool) (f : Row → Row) (message k : String) (t : Table)
    (keyed : (r : Row) → p r ≡ true → (r.job_id == k) ≡ true)
    (keeps_id : (r : Row) → (f r).job_id ≡ r.job_id) where
  pub updated_found : count_by p t ≢ 0 → find k (update_where p f t) ≢ none
  unfolding find
  updated_found h =
      select_one_weaken p (λ r. r.job_id == k) f t (λ r m. (keyed r m, rw (keeps_id r) (keyed r m)))
        h

  pub update_one_changed :
      eqb (count_by p t) 0 ≡ false → update_one p f message k t ≡ get k (update_where p f t)
  unfolding update_one update
  update_one_changed h = rw h refl

  pub update_one_error :
      (e : Error) → (update_one p f message k t).0 ≡ err e → (update_one p f message k t).1 ≡ t
  update_one_error e h = elim (Bool-cases (eqb (count_by p t) 0)) [
    | inl nothing ↦ rw (update_one_table p f message k t) (update_where_none p f t (ground arith))
    | inr some_row ↦ absurd (
        get_found k (update_where p f t) (updated_found (ground arith)) e
          (rw (update_one_changed some_row) at h))
  ]

-- A selected row is counted by every weaker test.
pub selected_counted :
    (p q : Row → Bool) (t : Table) (a : Row)
    → ((r : Row) → p r ≡ true → q r ≡ true)
    → select_one p t ≡ some a
    → count_by q t ≢ 0
unfolding select_one
selected_counted p q [] a weaker h = absurd (cc)
selected_counted p q (r ∷ t) a weaker h = elim (Bool-cases (p r)) [
  | inl m ↦ ground (arith, weaker r m)
  | inr m ↦ ground (arith, selected_counted p q t a weaker (rw m at h))
]

module _ (k w : String) (now : ℕ) (t : Table) (e : Error) where
  keyed : (test : JobState → Bool) (r : Row) → owned k w test r ≡ true → (r.job_id == k) ≡ true
  keyed test r h = ground arith

  pub renew_lease_error :
      (lease : ℤ) → (renew_lease k w lease now t).0 ≡ err e → (renew_lease k w lease now t).1 ≡ t
  unfolding renew_lease
  renew_lease_error lease h = elim (Option-cases (positive lease)) [
    | inl n ↦ rw n refl
    | inr (n, p) ↦ rw p (update_one_error _ _ _ k t (keyed is_running) (λ r. refl) e (rw p at h))
  ]

  pub update_progress_error :
      (progress : ℤ)
      → (update_progress k w progress now t).0 ≡ err e
      → (update_progress k w progress now t).1 ≡ t
  unfolding update_progress
  update_progress_error (negsuc n) h = refl
  update_progress_error (pos n) h = elim (Bool-cases (leb n whole)) [
    | inl p ↦ rw p (update_one_error _ _ _ k t (keyed is_running) (λ r. refl) e (rw p at h))
    | inr p ↦ rw p refl
  ]

  keyed_state :
      (test : JobState → Bool) (r : Row) → in_state k test r ≡ true → (r.job_id == k) ≡ true
  keyed_state test r h = ground arith

  pub pause_error :
      (worker : Option String) → (pause k worker now t).0 ≡ err e → (pause k worker now t).1 ≡ t
  unfolding pause
  pause_error none h = update_one_error _ _ _ k t (keyed_state is_running) (λ r. refl) e h
  pause_error (some u) h = update_one_error _ _ _ k t (λ r m. ground arith) (λ r. refl) e h

  pub begin_verification_error :
      (begin_verification k w now t).0 ≡ err e → (begin_verification k w now t).1 ≡ t
  unfolding begin_verification
  begin_verification_error h = update_one_error _ _ _ k t (keyed is_running) (λ r. refl) e h

  pub complete_verification_error :
      (complete_verification k w now t).0 ≡ err e → (complete_verification k w now t).1 ≡ t
  unfolding complete_verification
  complete_verification_error h = update_one_error _ _ _ k t (keyed is_verifying) (λ r. refl) e h

  pub complete_error : (complete k w now t).0 ≡ err e → (complete k w now t).1 ≡ t
  unfolding complete
  complete_error h = update_one_error _ _ _ k t (keyed is_running) (λ r. refl) e h

  pub resume_error : (resume k now t).0 ≡ err e → (resume k now t).1 ≡ t
  unfolding resume
  resume_error h = update_one_error _ _ _ k t (keyed_state is_paused) (λ r. refl) e h

  pub fail_error :
      (code message : String)
      → (fail k w code message now t).0 ≡ err e
      → (fail k w code message now t).1 ≡ t
  unfolding fail
  fail_error code message h = update_one_error _ _ _ k t (keyed is_active) (λ r. refl) e h

  pub cancel_error : (cancel k now t).0 ≡ err e → (cancel k now t).1 ≡ t
  unfolding cancel
  cancel_error h = update_one_error _ _ _ k t (keyed_state is_cancellable) (λ r. refl) e h

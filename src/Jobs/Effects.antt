-- ===== src/Jobs/Effects.antt =====
-- The effect on the table of each method that changes one row of it.
use teldrive_lab.Prelude.{
  ℕ, String, Bool, true, Option, none, some, ◌≡◌, refl, arith, eqb, count_by, Bool-cases, inl, inr,
  ℤ, pos, negsuc, positive, leb, Option-cases, leb→le,
}
use teldrive_lab.Sql.{update_where}
use teldrive_lab.Sql.Laws.{All-tautology}
use teldrive_lab.Jobs.{Row}
use teldrive_lab.Jobs.Store.{Table, get, whole}
use teldrive_lab.Jobs.Updates.{
  update, update_one, renew_lease, update_progress, begin_verification, complete_verification,
  complete, pause, resume, fail, cancel,
}
use teldrive_lab.Jobs.Invariant.{
  IsRow, IsValid, RowStep, Effect, Evolves-refl, update_where-Effect, edges,
}

-- `get` reads only.
pub get_table : (k : String) (t : Table) → (get k t).1 ≡ t
unfolding get
get_table k t = ground arith

-- An error of `update_one` means that its statement matched no row.
module _ (p : Row → Bool) (f : Row → Row) (message k : String) (t : Table) where
  pub update_one_table : (update_one p f message k t).1 ≡ update_where p f t
  unfolding update_one update
  update_one_table = elim (Bool-cases (eqb (count_by p t) 0)) [
    | inl e ↦ rw e refl
    | inr e ↦ rw e (get_table k (update_where p f t))
  ]

  pub update_one-Effect :
      ((r : Row) → (f r).job_id ≡ r.job_id)
      → ((r : Row) → (f r).parent_job_id ≡ r.parent_job_id)
      → ((r : Row) → p r ≡ true → IsRow r → RowStep r (f r) × IsRow (f r))
      → IsValid t
      → Effect t (update_one p f message k t).1
  update_one-Effect keeps_id keeps_parent sound v =
      rw update_one_table
        (update_where-Effect p f t keeps_id keeps_parent (All-tautology _ t sound) v)

pub stays : (t : Table) → IsValid t → Effect t t
stays t v = (Evolves-refl t, v)

module _ (k w : String) (now : ℕ) (t : Table) (v : IsValid t) where
  pub renew_lease-Effect : (lease : ℤ) → Effect t (renew_lease k w lease now t).1
  unfolding renew_lease
  renew_lease-Effect lease = elim (Option-cases (positive lease)) [
    | inl e ↦ rw e (stays t v)
    | inr (n, e) ↦
        rw e (update_one-Effect _ _ _ k t (λ r. refl) (λ r. refl) (λ r m h. grind (arith, edges)) v)
  ]

  pub update_progress-Effect : (progress : ℤ) → Effect t (update_progress k w progress now t).1
  unfolding update_progress
  update_progress-Effect (negsuc n) = stays t v
  update_progress-Effect (pos n) = elim (Bool-cases (leb n whole)) [
    | inl e ↦ rw e (
        update_one-Effect _ _ _ k t (λ r. refl) (λ r. refl)
          (λ r m h. grind (arith, edges, leb→le n whole e)) v)
    | inr e ↦ rw e (stays t v)
  ]

  pub begin_verification-Effect : Effect t (begin_verification k w now t).1
  unfolding begin_verification
  begin_verification-Effect =
      update_one-Effect _ _ _ k t (λ r. refl) (λ r. refl) (λ r m h. grind (arith, edges)) v

  pub complete_verification-Effect : Effect t (complete_verification k w now t).1
  unfolding complete_verification
  complete_verification-Effect =
      update_one-Effect _ _ _ k t (λ r. refl) (λ r. refl) (λ r m h. grind (arith, edges)) v

  pub complete-Effect : Effect t (complete k w now t).1
  unfolding complete
  complete-Effect =
      update_one-Effect _ _ _ k t (λ r. refl) (λ r. refl) (λ r m h. grind (arith, edges)) v

  pub fail-Effect : (code message : String) → Effect t (fail k w code message now t).1
  unfolding fail
  fail-Effect code message =
      update_one-Effect _ _ _ k t (λ r. refl) (λ r. refl) (λ r m h. grind (arith, edges)) v

module _ (k : String) (now : ℕ) (t : Table) (v : IsValid t) where
  pub pause-Effect : (worker : Option String) → Effect t (pause k worker now t).1
  unfolding pause
  pause-Effect none =
      update_one-Effect _ _ _ k t (λ r. refl) (λ r. refl) (λ r m h. grind (arith, edges)) v
  pause-Effect (some u) =
      update_one-Effect _ _ _ k t (λ r. refl) (λ r. refl) (λ r m h. grind (arith, edges)) v

  pub resume-Effect : Effect t (resume k now t).1
  unfolding resume
  resume-Effect =
      update_one-Effect _ _ _ k t (λ r. refl) (λ r. refl) (λ r m h. grind (arith, edges)) v

  pub cancel-Effect : Effect t (cancel k now t).1
  unfolding cancel
  cancel-Effect =
      update_one-Effect _ _ _ k t (λ r. refl) (λ r. refl) (λ r m h. grind (arith, edges)) v

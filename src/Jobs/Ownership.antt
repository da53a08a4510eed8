-- ===== src/Jobs/Ownership.antt =====
-- What a worker may do to a job that it does not own.
use mathlib.Core.Path.{subst}
use teldrive_lab.Prelude.{
  sym, ℕ, String, Bool, true, false, Option, none, some, [], ◌∷◌, ◌≡◌, refl, arith, ◌==◌, inl, inr,
  pos, negsuc, positive, holds, Bool-cases, Option-cases, count_by, eq_iff, All,
}
use teldrive_lab.Exec.{Action, Error, err, value_error, raise}
use teldrive_lab.Sql.{select_one}
use teldrive_lab.Sql.Laws.{update_where_none, select_one_of_none, All-map}
use teldrive_lab.Sql.Keys.{selected_is_only}
use teldrive_lab.Jobs.{JobState, Job, Row, is_running, is_active, is_verifying}
use teldrive_lab.Jobs.Store.{Table, find}
use teldrive_lab.Jobs.Updates.{
  update, update_one, owned, fraction, renew_lease, update_progress, begin_verification,
  complete_verification, complete, pause, fail,
}
use teldrive_lab.Jobs.Claims.{retry, retry_for, retry_read}
use teldrive_lab.Jobs.Invariant.{IsValid}
use teldrive_lab.Jobs.Trace.{
  Op, perform, renew_op, progress_op, begin_verification_op, complete_verification_op, complete_op,
  pause_op, fail_op, retry_op, discard,
}

-- The job and the worker that a method names as its owner.
abbrev pub acts_as : Op → Option (String × String)
acts_as (renew_op k w lease now) = some (k, w)
acts_as (progress_op k w progress now) = some (k, w)
acts_as (begin_verification_op k w now) = some (k, w)
acts_as (complete_verification_op k w now) = some (k, w)
acts_as (complete_op k w now) = some (k, w)
acts_as (pause_op k (some w) now) = some (k, w)
acts_as (fail_op k w code message now) = some (k, w)
acts_as (retry_op k w code message delay now) = some (k, w)
acts_as _ = none

-- The method raised and changed nothing.
abbrev pub Refused : {A : Type 0} → Action Table A → Table → Type 0
Refused m t = ((e : Error) × ((m t).0 ≡ err e)) × ((m t).1 ≡ t)

-- No row of the table has this key and this owner.
abbrev Foreign : String → String → Table → Type 0
Foreign k w t = All (λ r. (r.job_id == k) ≡ true → holds r.worker_id w ≡ false) t

unmatched :
    (k w : String) (test : JobState → Bool) (t : Table)
    → Foreign k w t
    → count_by (owned k w test) t ≡ 0
unmatched k w test [] h = refl
unmatched k w test (r ∷ t) h = elim (Bool-cases (r.job_id == k)) [
  | inl e ↦ ground (arith, h.0 e, unmatched k w test t h.1)
  | inr e ↦ ground (arith, unmatched k w test t h.1)
]

pub update_one_refused :
    (p : Row → Bool) (f : Row → Row) (message k : String) (t : Table)
    → count_by p t ≡ 0
    → update_one p f message k t ≡ (err (value_error message), t)
unfolding update_one update
update_one_refused p f message k t h = rw (h, update_where_none p f t h) refl

module _ (k w : String) (t : Table) (foreign : Foreign k w t) where
  Refused-one :
      (test : JobState → Bool) (f : Row → Row) (message : String)
      → Refused (update_one (owned k w test) f message k) t
  Refused-one test f message =
      rw (update_one_refused (owned k w test) f message k t (unmatched k w test t foreign))
        ((value_error message, refl), refl)

  unselected : select_one (owned k w is_active) t ≡ none
  unselected = select_one_of_none (owned k w is_active) t (unmatched k w is_active t foreign)

  retry_for-Refused :
      (delay : ℕ) (code message : String) (now : ℕ)
      → Refused (retry_for k w delay code message now) t
  unfolding retry_for retry_read
  retry_for-Refused delay code message now = (
    (value_error "job is not owned by this worker or is not running", ground (arith, unselected)),
    ground (arith, unselected),
  )

discard-Refused :
    {A : Type 0} (m : Action Table A) (t : Table) → Refused m t → Refused (discard m) t
discard-Refused m t ((e, raised), same) = ((e, ground arith), ground arith)

raised-Refused : {A : Type 0} (e : Error) (t : Table) → Refused (raise {A = A} e) t
raised-Refused e t = ((e, refl), refl)

Foreign-of_find :
    (k w : String) (t : Table) (r : Row)
    → IsValid t
    → find k t ≡ some r
    → holds r.worker_id w ≡ false
    → Foreign k w t
unfolding find
Foreign-of_find k w t r v h other =
    All-map (λ x. (x.job_id == k) ≡ true → x ≡ r)
      (λ x. (x.job_id == k) ≡ true → holds x.worker_id w ≡ false) t (λ x only e. rw (only e) other)
      (selected_is_only (λ x. x.job_id) (λ x. x.job_id == k) k t r (λ x m. (eq_iff x.job_id k).0 m)
        v.keys h)

abbrev ForeignTo : Option (String × String) → Table → Type 0
ForeignTo none t = ⊥
ForeignTo (some (k, w)) t = Foreign k w t

foreign-Refused : (op : Op) (t : Table) → ForeignTo (acts_as op) t → Refused (perform op) t
unfolding perform renew_lease update_progress begin_verification complete_verification complete
    pause fail retry
foreign-Refused (renew_op k w lease now) t f = elim (Option-cases (positive lease)) [
  | inl e ↦ rw e (discard-Refused {A = Job} (raise _) t (raised-Refused _ t))
  | inr (n, e) ↦ rw e (discard-Refused (update_one _ _ _ k) t (Refused-one k w t f is_running _ _))
]
foreign-Refused (progress_op k w p now) t f = elim (Option-cases (fraction p)) [
  | inl e ↦ rw e (discard-Refused {A = Job} (raise _) t (raised-Refused _ t))
  | inr (n, e) ↦ rw e (discard-Refused (update_one _ _ _ k) t (Refused-one k w t f is_running _ _))
]
foreign-Refused (begin_verification_op k w now) t f =
    discard-Refused (update_one _ _ _ k) t (Refused-one k w t f is_running _ _)
foreign-Refused (complete_verification_op k w now) t f =
    discard-Refused (update_one _ _ _ k) t (Refused-one k w t f is_verifying _ _)
foreign-Refused (complete_op k w now) t f =
    discard-Refused (update_one _ _ _ k) t (Refused-one k w t f is_running _ _)
foreign-Refused (pause_op k (some w) now) t f =
    discard-Refused (update_one _ _ _ k) t (Refused-one k w t f is_running _ _)
foreign-Refused (fail_op k w code message now) t f =
    discard-Refused (update_one _ _ _ k) t (Refused-one k w t f is_active _ _)
foreign-Refused (retry_op k w code message (pos d) now) t f =
    discard-Refused (retry_for k w d code message now) t
      (retry_for-Refused k w t f d code message now)
foreign-Refused (retry_op k w code message (negsuc d) now) t f =
    discard-Refused {A = Job} (raise _) t (raised-Refused _ t)
foreign-Refused _ t f = absurd f

-- A worker that does not own a job can do nothing to it: renewing its lease, reporting progress,
-- verifying, completing, pausing, failing and retrying it raise, and leave the table as it was.
pub not_owner-Refused :
    (op : Op) (t : Table) (k w : String) (r : Row)
    → IsValid t
    → acts_as op ≡ some (k, w)
    → find k t ≡ some r
    → holds r.worker_id w ≡ false
    → Refused (perform op) t
not_owner-Refused op t k w r v a h other =
    foreign-Refused op t (subst (λ o. ForeignTo o t) (sym a) (Foreign-of_find k w t r v h other))

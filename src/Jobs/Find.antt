-- ===== src/Jobs/Find.antt =====
-- The row of a job after an UPDATE.
use teldrive_lab.Prelude.{
  String, Bool, true, Option, none, some, [], ◌∷◌, ◌≡◌, ◌≢◌, refl, ◌∙◌, ap, arith, ◌==◌, inl, inr,
  All, if◌then◌else◌, Option-cases, count_by, eq_refl, eq_iff,
}
use teldrive_lab.Sql.{update_where, select_one}
use teldrive_lab.Sql.Laws.{All-zip, All-map, All-select_one, select_one_test, select_one-none}
use teldrive_lab.Sql.Keys.{key_decides}
use teldrive_lab.Jobs.{Row}
use teldrive_lab.Jobs.Store.{Table, find}
use teldrive_lab.Jobs.Invariant.{IsValid}

abbrev pub on_found : (Row → Bool) → (Row → Row) → Option Row → Option Row
on_found p f none = none
on_found p f (some r) = some (if p r then f r else r)

pub find-update_where :
    (p : Row → Bool) (f : Row → Row) (k : String) (t : Table)
    → ((r : Row) → (f r).job_id ≡ r.job_id)
    → find k (update_where p f t) ≡ on_found p f (find k t)
unfolding find select_one update_where
find-update_where p f k [] keeps_id = refl
find-update_where p f k (r ∷ t) keeps_id =
    ground (arith, keeps_id r, find-update_where p f k t keeps_id)

abbrev pub changed : (Row → Row) → Option Row → Option Row
changed f none = none
changed f (some r) = some (f r)

-- An UPDATE of one job changes what is found under its key, and under no other.
pub find-update_id :
    (j k : String) (f : Row → Row) (t : Table)
    → ((r : Row) → (f r).job_id ≡ r.job_id)
    → find k (update_where (λ r. r.job_id == j) f t)
      ≡ (if j == k then changed f (find k t) else find k t)
unfolding find select_one update_where
find-update_id j k f [] keeps_id = ground arith
find-update_id j k f (r ∷ t) keeps_id = ground (
  arith,
  keeps_id r,
  find-update_id j k f t keeps_id,
  eq_iff r.job_id j,
  eq_iff r.job_id k,
  eq_iff j k,
)

-- Every row of a table is counted by the tests that it passes.
pub members_counted : (t : Table) → All (λ x. (q : Row → Bool) → q x ≡ true → count_by q t ≢ 0) t
members_counted [] = tt
members_counted (r ∷ t) = (
  (λ q h. ground arith),
  All-map (λ x. (q : Row → Bool) → q x ≡ true → count_by q t ≢ 0)
      (λ x. (q : Row → Bool) → q x ≡ true → count_by q (r ∷ t) ≢ 0) t
      (λ x ih q h. ground (arith, ih q h)) (members_counted t),
)

-- Every row of a valid table is found by its key.
pub members_found : (t : Table) → IsValid t → All (λ x. find x.job_id t ≡ some x) t
unfolding find
members_found t v =
    All-map
      (λ x.
        All (λ y. (y.job_id == x.job_id) ≡ true → y ≡ x) t
        × ((q : Row → Bool) → q x ≡ true → count_by q t ≢ 0))
      (λ x. find x.job_id t ≡ some x) t
      (λ x (only, counted). elim (Option-cases (select_one (λ r. r.job_id == x.job_id) t)) [
        | inl missing ↦ absurd (
            counted (λ r. r.job_id == x.job_id) (eq_refl x.job_id)
              (select_one-none (λ r. r.job_id == x.job_id) t missing))
        | inr (y, found) ↦
            let same : y ≡ x =
              All-select_one (λ z. (z.job_id == x.job_id) ≡ true → z ≡ x)
                (λ r. r.job_id == x.job_id) t y found only
                (select_one_test (λ r. r.job_id == x.job_id) t y found) in
            found ∙ ap some same
      ])
      (All-zip _ _ t (key_decides (λ r. r.job_id) t v.keys) (members_counted t))

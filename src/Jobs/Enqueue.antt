-- ===== src/Jobs/Enqueue.antt =====
-- The effect of `enqueue`: nothing, or one valid row at the end of the table.
use mathlib.Core.List.{map-append}
use teldrive_lab.Prelude.{
  ℕ, ◌<◌, String, true, false, Option, none, some, [], ◌∷◌, ◌++◌, ◌≡◌, refl, arith, ◌==◌, inl, inr,
  ◌⊎◌, ℤ, positive, Option-cases, any_by, or_text,
}
use teldrive_lab.Exec.{ok, Result-cases}
use teldrive_lab.Sql.Laws.{All-append, All-map}
use teldrive_lab.Sql.Keys.{AreDistinct-append, any_by-snoc}
use teldrive_lab.Jobs.{JobType, Row}
use teldrive_lab.Jobs.Store.{Table, Request, find, insert, check_parent, enqueue, new_row}
use teldrive_lab.Jobs.Invariant.{IsRow, IsValid, Effect, Evolves, RowStep-refl, ids, known}
use teldrive_lab.Jobs.Effects.{get_table, stays}

-- `find` looks the key column through.
pub find-none : (k : String) (t : Table) → find k t ≡ none → any_by (λ j. j == k) (ids t) ≡ false
unfolding find
find-none k [] h = refl
find-none k (r ∷ t) h = ground (arith, find-none k t)

pub find-some :
    (k : String) (t : Table) (r : Row) → find k t ≡ some r → any_by (λ j. j == k) (ids t) ≡ true
unfolding find
find-some k [] r h = absurd (cc)
find-some k (x ∷ t) r h = ground (arith, find-some k t r)

positive_pos : (z : ℤ) (n : ℕ) → positive z ≡ some n → 0 < n
positive_pos z n h = ground arith

Evolves-append : (t : Table) (r : Row) → IsRow r → Evolves t (t ++ r ∷ [])
Evolves-append [] r h = (h, tt)
Evolves-append (x ∷ t) r h = (RowStep-refl x, Evolves-append t r h)

-- A valid row with a new key and a known parent extends the table.
pub append-Effect :
    (t : Table) (r : Row)
    → IsRow r
    → find r.job_id t ≡ none
    → known (ids t) r.parent_job_id ≡ true
    → IsValid t
    → Effect t (t ++ r ∷ [])
append-Effect t r row fresh parent v =
    let same : ids (t ++ r ∷ []) ≡ ids t ++ r.job_id ∷ [] = map-append (λ x. x.job_id) t (r ∷ []) in
    (
      Evolves-append t r row,
      record {
        rows = All-append IsRow t (r ∷ []) v.rows (row, tt);
        keys = rw same (AreDistinct-append (ids t) r.job_id (find-none r.job_id t fresh) v.keys);
        parents = rw same (
            All-append (λ x. known (ids t ++ r.job_id ∷ []) x.parent_job_id ≡ true) t (r ∷ [])
              (All-map (λ x. known (ids t) x.parent_job_id ≡ true)
                (λ x. known (ids t ++ r.job_id ∷ []) x.parent_job_id ≡ true) t
                (λ x. known_more x.parent_job_id) v.parents)
              (known_more r.parent_job_id parent, tt));
      },
    )
  where
    known_more :
        (o : Option String) → known (ids t) o ≡ true → known (ids t ++ r.job_id ∷ []) o ≡ true
    known_more none h = refl
    known_more (some p) h = rw (any_by-snoc (λ j. j == p) (ids t) r.job_id, h)

-- A parent that passes the check is in the table and not terminal.
pub check_parent_ok :
    (o : Option String) (t : Table) → (check_parent o t).0 ≡ ok tt → known (ids t) o ≡ true
unfolding check_parent
check_parent_ok none t h = refl
check_parent_ok (some p) t h = elim (Option-cases (find p t)) [
  | inl e ↦ ground arith
  | inr (r, e) ↦ find-some p t r e
]

pub check_parent_table : (o : Option String) (t : Table) → (check_parent o t).1 ≡ t
unfolding check_parent
check_parent_table none t = refl
check_parent_table (some p) t = ground arith

new_row-IsRow :
    (ty : JobType) (q : Request) (k : String) (n now : ℕ) → 0 < n → IsRow (new_row ty q k n now)
new_row-IsRow ty q k n now h = ground arith

-- What `enqueue` has done, once the ceiling is accepted.
pub enqueue_table :
    (ty : JobType) (q : Request) (fresh : String) (now n : ℕ) (t : Table)
    → positive q.max_attempts ≡ some n
    → let k = or_text q.job_id fresh in
      ((enqueue ty q fresh now t).1 ≡ t)
      ⊎ (((check_parent q.parent_job_id t).0 ≡ ok tt)
          × (find k t ≡ none)
          × ((enqueue ty q fresh now t).1 ≡ t ++ new_row ty q k n now ∷ []))
unfolding enqueue insert
enqueue_table ty q fresh now n t e =
    let k = or_text q.job_id fresh in
    elim (Option-cases (find k t)) [
      | inr (r, found) ↦ inl (ground (arith, check_parent_table q.parent_job_id t, get_table k t))
      | inl new ↦ elim (Result-cases (check_parent q.parent_job_id t).0) [
        | inl accepted ↦ inr (
          accepted,
          new,
          ground (
            arith,
            check_parent_table q.parent_job_id t,
            get_table k (t ++ new_row ty q k n now ∷ []),
          ),
        )
        | inr (x, refused) ↦ inl (ground (arith, check_parent_table q.parent_job_id t))
      ]
    ]

-- `enqueue` adds one row, or has changed nothing.
pub enqueue-Effect :
    (ty : JobType) (q : Request) (fresh : String) (now : ℕ) (t : Table)
    → IsValid t
    → Effect t (enqueue ty q fresh now t).1
enqueue-Effect ty q fresh now t v = elim (Option-cases (positive q.max_attempts)) [
  | inl e ↦ unfold enqueue in rw e (stays t v)
  | inr (n, e) ↦ elim (enqueue_table ty q fresh now n t e) [
    | inl same ↦ rw same (stays t v)
    | inr (accepted, new, grown) ↦ rw grown (
        append-Effect t (new_row ty q (or_text q.job_id fresh) n now)
          (new_row-IsRow ty q (or_text q.job_id fresh) n now (positive_pos q.max_attempts n e)) new
          (check_parent_ok q.parent_job_id t accepted) v)
  ]
]

-- ===== src/Catalog/Unique.antt =====
-- The UNIQUE constraint of the catalog's table, and the records that a source has lost.
use teldrive_lab.Prelude.{
  ℕ, ◌+◌, ◌≤◌, String, Bool, true, false, not, ◌&&◌, Option, List, [], ◌∷◌, if◌then◌else◌, ◌==◌,
  any_by, filter_by, count_by, length, ◌≡◌, refl, arith, eq_iff, is_some, inl, inr, Bool-cases,
  length-append, ◌∙◌,
}
use teldrive_lab.Sql.{order_by}
use teldrive_lab.Sql.Order.{count_by-order_by}
use teldrive_lab.Sql.Upsert.{any_by-select_one}
use teldrive_lab.Models.{SourceType, FileRecord}
use teldrive_lab.Catalog.{
  Files, is_from, is_at, same_identity, inserted, excluded, get, upsert, stored, list_source,
  reconcile_source, by_path,
}
use teldrive_lab.Sql.Counts.{
  count_by-filter_by, count_by-update_where, length-update_where, count_by_none, count_by-append,
}
use teldrive_lab.Catalog.Laws.{same_source_type_lem}

-- No two rows have the same identity.
abbrev pub IsUnique : Files → Type 0
IsUnique rows = (t : SourceType) (i p : String) → count_by (is_at t i p) rows ≤ 1

abbrev existing_of : FileRecord → Files → Option FileRecord
existing_of new rows = get new.source_type new.source_identifier new.path rows

upsert_row :
    (fresh : ℕ) (new : FileRecord) (rows : Files)
    → (upsert fresh new rows).1 ≡ stored new (inserted fresh (existing_of new rows) new) rows
unfolding upsert
upsert_row fresh new rows = refl

get_found :
    (new : FileRecord) (rows : Files) (n : ℕ)
    → n + (if any_by (same_identity new) rows then 0 else 1)
      ≡ n + (if is_some (existing_of new rows) then 0 else 1)
unfolding get
get_found new rows n = rw (any_by-select_one (same_identity new) rows) refl

length-stored :
    (new row : FileRecord) (rows : Files)
    → length (stored new row rows)
      ≡ length rows + (if any_by (same_identity new) rows then 0 else 1)
length-stored new row rows = elim (Bool-cases (any_by (same_identity new) rows)) [
  | inl there ↦ rw there (length-update_where (same_identity new) (excluded row) rows ∙ omega arith)
  | inr fresh ↦ rw fresh (length-append rows (row ∷ []))
]

-- A new row has no other of its identity beside it.
none_at :
    (new : FileRecord) (t : SourceType) (i p : String) (rows : Files)
    → any_by (same_identity new) rows ≡ false
    → is_at t i p new ≡ true
    → count_by (is_at t i p) rows ≡ 0
none_at new t i p rows h same =
    let source : new.source_type ≡ t = same_source_type_lem new.source_type t (ground arith) in
    let identifier : new.source_identifier ≡ i = ground (arith, eq_iff new.source_identifier i) in
    let path : new.path ≡ p = ground (arith, eq_iff new.path p) in
    rw (← source) (rw (← identifier) (rw (← path) (count_by_none (same_identity new) rows h)))

stored_unique :
    (new row : FileRecord) (t : SourceType) (i p : String) (rows : Files)
    → count_by (is_at t i p) rows ≤ 1
    → is_at t i p row ≡ is_at t i p new
    → count_by (is_at t i p) (stored new row rows) ≤ 1
stored_unique new row t i p rows unique same = elim (Bool-cases (any_by (same_identity new) rows)) [
  | inl there ↦ rw there (
      rw (count_by-update_where (is_at t i p) (same_identity new) (excluded row) rows (λ r. refl))
        unique)
  | inr fresh ↦ rw fresh (
      rw (count_by-append (is_at t i p) row rows) (elim (Bool-cases (is_at t i p new)) [
        | inl own ↦ rw (none_at new t i p rows fresh own) (rw same (rw own (omega arith)))
        | inr other ↦ rw same (rw other (omega arith))
      ]))
]

-- An upsert keeps the UNIQUE constraint, and adds a row exactly when the identity of its record has none.
pub upsert-IsUnique :
    (fresh : ℕ) (new : FileRecord) (rows : Files)
    → IsUnique rows
    → IsUnique (upsert fresh new rows).1
      × (length (upsert fresh new rows).1
          ≡ length rows
            + (if is_some (get new.source_type new.source_identifier new.path rows) then 0 else 1))
upsert-IsUnique fresh new rows unique = (
  (λ t i p. rw (upsert_row fresh new rows) (
      stored_unique new (inserted fresh (existing_of new rows) new) t i p rows (unique t i p)
        refl)),
  rw (upsert_row fresh new rows) (
      length-stored new (inserted fresh (existing_of new rows) new) rows
      ∙ get_found new rows (length rows)),
)

-- The records that a source has lost are those rows of the source whose paths were not seen, each as often
-- as it is in the table: every test counts the same in both.
pub reconcile_source_lem :
    (t : SourceType) (i : String) (seen : List String) (rows : Files) (q : FileRecord → Bool)
    → count_by q (reconcile_source t i seen rows)
      ≡ count_by (λ r. is_from t i r && (not (any_by (λ p. p == r.path) seen) && q r)) rows
unfolding reconcile_source list_source
reconcile_source_lem t i seen rows q =
    count_by-filter_by q unseen (order_by by_path (filter_by (is_from t i) rows))
    ∙ (count_by-order_by by_path (λ r. unseen r && q r) (filter_by (is_from t i) rows)
        ∙ count_by-filter_by (λ r. unseen r && q r) (is_from t i) rows)
  where
    unseen : FileRecord → Bool
    unseen r = not (any_by (λ p. p == r.path) seen)

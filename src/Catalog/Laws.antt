-- ===== src/Catalog/Laws.antt =====
-- What the catalog finds after an upsert, what a search returns, and which records a source has lost.
use teldrive_lab.Prelude.{
  ℕ, String, true, false, Option, none, some, [], ◌∷◌, if◌then◌else◌, any_by, ◌≡◌, refl, arith,
  eq_iff, eq_refl, ap, inl, inr, Bool-cases,
}
use teldrive_lab.Sql.{update_where, select_one}
use teldrive_lab.Sql.Laws.{select_one_test}
use teldrive_lab.Sql.Upsert.{select_one-append, any_by-select_one}
use teldrive_lab.Models.{SourceType, FileRecord, same_source_type}
use teldrive_lab.Catalog.{Files, is_at, same_identity, inserted, excluded, get, upsert, stored}

pub same_source_type_lem : (a b : SourceType) → same_source_type a b ≡ true → a ≡ b
same_source_type_lem a b h = ground arith

same_source_type_refl : (a : SourceType) → same_source_type a a ≡ true
same_source_type_refl a = ground arith

-- The row that an upsert leaves under the identity of its record.
abbrev pub row_of : ℕ → FileRecord → Option FileRecord → FileRecord
row_of fresh new none = record new { id = some fresh }
row_of fresh new (some old) = record new { first_seen_at = old.first_seen_at; id = old.id }

is_at_trans :
    (new r : FileRecord) (t : SourceType) (i p : String)
    → same_identity new r ≡ true
    → is_at t i p r ≡ is_at t i p new
is_at_trans new r t i p h = ground (
  arith,
  same_source_type_lem r.source_type new.source_type,
  eq_iff r.source_identifier new.source_identifier,
  eq_iff r.path new.path,
)

excluded_lem :
    (fresh : ℕ) (new old : FileRecord)
    → same_identity new old ≡ true
    → excluded (inserted fresh (some old) new) old ≡ row_of fresh new (some old)
excluded_lem fresh new old h =
    let source : old.source_type ≡ new.source_type =
      same_source_type_lem old.source_type new.source_type (ground arith) in
    let identifier : old.source_identifier ≡ new.source_identifier =
      ground (arith, eq_iff old.source_identifier new.source_identifier) in
    let path : old.path ≡ new.path = ground (arith, eq_iff old.path new.path) in
    rw source (rw identifier (rw path refl))

abbrev mapped : (FileRecord → FileRecord) → Option FileRecord → Option FileRecord
mapped f none = none
mapped f (some r) = some (f r)

-- An update of the rows of another identity.
select_other :
    (new row : FileRecord) (t : SourceType) (i p : String) (rows : Files)
    → is_at t i p new ≡ false
    → select_one (is_at t i p) (update_where (same_identity new) (excluded row) rows)
      ≡ select_one (is_at t i p) rows
unfolding select_one update_where
select_other new row t i p [] h = refl
select_other new row t i p (r ∷ rows) h =
    ground (arith, select_other new row t i p rows, is_at_trans new r t i p)

-- An update of the rows of the identity.
select_own :
    (new row : FileRecord) (rows : Files)
    → select_one (same_identity new) (update_where (same_identity new) (excluded row) rows)
      ≡ mapped (excluded row) (select_one (same_identity new) rows)
unfolding select_one update_where
select_own new row [] = refl
select_own new row (r ∷ rows) = elim (Bool-cases (same_identity new r)) [
  | inl same ↦ rw same (rw same refl)
  | inr other ↦ rw other (rw other (select_own new row rows))
]

same_identity_refl : (new : FileRecord) → same_identity new new ≡ true
same_identity_refl new =
    rw (same_source_type_refl new.source_type)
      (rw (eq_refl new.source_identifier) (rw (eq_refl new.path) refl))

own_row :
    (fresh : ℕ) (new : FileRecord) (rows : Files) (existing : Option FileRecord)
    → select_one (same_identity new) rows ≡ existing
    → select_one (same_identity new) (stored new (inserted fresh existing new) rows)
      ≡ some (row_of fresh new existing)
own_row fresh new rows none e = rw (any_by-select_one (same_identity new) rows) (
    rw e (
      rw (select_one-append (same_identity new) (inserted fresh none new) rows) (
        rw (any_by-select_one (same_identity new) rows) (rw e (rw (same_identity_refl new) refl)))))
own_row fresh new rows (some old) e = rw (any_by-select_one (same_identity new) rows) (
    rw e (
      rw (select_own new (inserted fresh (some old) new) rows) (
        rw e
          (ap some (excluded_lem fresh new old (select_one_test (same_identity new) rows old e))))))

other_row :
    (new row : FileRecord) (t : SourceType) (i p : String) (rows : Files)
    → is_at t i p new ≡ false
    → is_at t i p row ≡ false
    → select_one (is_at t i p) (stored new row rows) ≡ select_one (is_at t i p) rows
other_row new row t i p rows h g = elim (Bool-cases (any_by (same_identity new) rows)) [
  | inl there ↦ rw there (select_other new row t i p rows h)
  | inr fresh ↦ rw fresh (
      ground
        (arith, select_one-append (is_at t i p) row rows, any_by-select_one (is_at t i p) rows))
]

-- An upsert returns what a `get` of the record's identity finds after it: the record, with the first date
-- and the id of the row that was there, or with its own first date and the fresh id. A `get` of
-- another identity finds what it found before.
pub get-upsert :
    (fresh : ℕ) (new : FileRecord) (t : SourceType) (i p : String) (rows : Files)
    → ((upsert fresh new rows).0
        ≡ some (row_of fresh new (get new.source_type new.source_identifier new.path rows)))
      × (get t i p (upsert fresh new rows).1
          ≡ (if is_at t i p new then some (row_of fresh new (get t i p rows)) else get t i p rows))
unfolding upsert get
get-upsert fresh new t i p rows =
    let row = inserted fresh (select_one (same_identity new) rows) new in
    let own = own_row fresh new rows (select_one (same_identity new) rows) refl in
    (
      own,
      elim (Bool-cases (is_at t i p new)) [
        | inl same ↦
            let source : new.source_type ≡ t =
              same_source_type_lem new.source_type t (ground arith) in
            let identifier : new.source_identifier ≡ i =
              ground (arith, eq_iff new.source_identifier i) in
            let path : new.path ≡ p = ground (arith, eq_iff new.path p) in
            rw same (rw (← source) (rw (← identifier) (rw (← path) own)))
        | inr other ↦ rw other (other_row new row t i p rows other other)
      ],
    )

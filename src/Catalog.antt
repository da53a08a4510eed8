-- ===== src/Catalog.antt =====
-- teldrive_lab/catalog.py: the table of observed files. The rows are the list of records with their ids; the
-- id that AUTOINCREMENT gives to a new row is an argument, and so is SQLite's LIKE.
pub mod Laws
pub mod Unique
use teldrive_lab.Prelude.{
  ℕ, String, Bool, true, false, not, ◌&&◌, ◌||◌, Option, none, some, List, [], ◌∷◌, ◌++◌,
  if◌then◌else◌, ◌==◌, any_by, filter_by, take, length, ltb, text_le, ℤ, pos, negsuc, zero, suc,
}
use teldrive_lab.Exec.{Result, ok, err, value_error}
use teldrive_lab.Text.{strip, append}
use teldrive_lab.Sql.{update_where, select_one, order_by}
use teldrive_lab.Models.{SourceType, FileRecord, same_source_type}

abbrev pub Files : Type 0
Files = List FileRecord

-- `source_type = ? AND source_identifier = ?`
abbrev pub is_from : SourceType → String → FileRecord → Bool
is_from source_type source_identifier r =
    same_source_type r.source_type source_type && r.source_identifier == source_identifier

-- The same with `AND path = ?`: the columns of the UNIQUE constraint.
abbrev pub is_at : SourceType → String → String → FileRecord → Bool
is_at source_type source_identifier path r =
    is_from source_type source_identifier r && r.path == path

abbrev pub same_identity : FileRecord → FileRecord → Bool
same_identity new r = is_at new.source_type new.source_identifier new.path r

abbrev first_seen : Option FileRecord → FileRecord → String
first_seen none new = new.first_seen_at
first_seen (some old) new = old.first_seen_at

-- The row that INSERT gets.
abbrev pub inserted : ℕ → Option FileRecord → FileRecord → FileRecord
inserted fresh old new = record new { first_seen_at = first_seen old new; id = some fresh }

-- ON CONFLICT … DO UPDATE sets every column but the three of the constraint, `first_seen_at` and `id`.
abbrev pub excluded : FileRecord → FileRecord → FileRecord
excluded row old = record row {
  path = old.path;
  source_type = old.source_type;
  source_identifier = old.source_identifier;
  first_seen_at = old.first_seen_at;
  id = old.id;
}

unfoldable pub get : SourceType → String → String → Files → Option FileRecord
get source_type source_identifier path rows =
    select_one (is_at source_type source_identifier path) rows

abbrev pub stored : FileRecord → FileRecord → Files → Files
stored new row rows =
    if any_by (same_identity new) rows
    then update_where (same_identity new) (excluded row) rows
    else rows ++ row ∷ []

-- `upsert`, with what it returns.
unfoldable pub upsert : (fresh : ℕ) → FileRecord → Files → Option FileRecord × Files
upsert fresh new rows =
    let existing = get new.source_type new.source_identifier new.path rows in
    let after = stored new (inserted fresh existing new) rows in
    (get new.source_type new.source_identifier new.path after, after)

abbrev pub count : Files → ℕ
count = length

abbrev pub by_path : FileRecord → FileRecord → Bool
by_path a b = text_le a.path b.path

unfoldable pub list_source : SourceType → String → Files → Files
list_source source_type source_identifier rows =
    order_by by_path (filter_by (is_from source_type source_identifier) rows)

-- `limit < 1 or limit > 500`, with the limit when it is neither.
abbrev limit_of : ℤ → Option ℕ
limit_of (pos zero) = none
limit_of (pos (suc n)) = if ltb 500 (suc n) then none else some (suc n)
limit_of (negsuc n) = none

abbrev pub matches : (String → String → Bool) → String → FileRecord → Bool
matches like pattern r = like r.path pattern || like r.name pattern

unfoldable pub search :
    (like : String → String → Bool) → String → (limit : ℤ) → Files → Result Files
search like query limit rows =
    let wanted = strip query in
    if wanted == "" then err (value_error "query must not be empty") else elim (limit_of limit) [
      | none ↦ err (value_error "limit must be between 1 and 500")
      | some n ↦ ok (
          take n
            (order_by by_path (filter_by (matches like (append "%" (append wanted "%"))) rows)))
    ]

unfoldable pub reconcile_source : SourceType → String → (seen_paths : List String) → Files → Files
reconcile_source source_type source_identifier seen rows =
    filter_by (λ r. not (any_by (λ p. p == r.path) seen))
      (list_source source_type source_identifier rows)

-- `rebuild`: the tables are dropped and made again.
abbrev pub rebuild : Files → Files
rebuild rows = []

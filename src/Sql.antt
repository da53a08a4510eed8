-- ===== src/Sql.antt =====
-- The SQL statements that the stores use, over a table as the list of its rows in rowid order:
-- UPDATE with a WHERE clause and its rowcount, SELECT of one row, ORDER BY.
pub mod Laws
pub mod Keys
pub mod Order
pub mod Upsert
pub mod Counts
use teldrive_lab.Prelude.{
  Bool, Option, none, some, List, [], ◌∷◌, if◌then◌else◌, String, ◌==◌, false, true, any_by, ◌≡◌,
}

module _ {R : Type 0} where
  -- UPDATE … SET (change) WHERE (matching); the rowcount is `count_by matching`.
  unfoldable pub update_where : (R → Bool) → (R → R) → List R → List R
  update_where matching change [] = []
  update_where matching change (r ∷ rows) =
      (if matching r then change r else r) ∷ update_where matching change rows

  -- SELECT … WHERE (matching), the first row of it.
  unfoldable pub select_one : (R → Bool) → List R → Option R
  select_one matching [] = none
  select_one matching (r ∷ rows) = if matching r then some r else select_one matching rows

  -- The place of a row in a sorted list: before the first row that it does not come after.
  unfoldable pub insert_sorted : (R → R → Bool) → R → List R → List R
  insert_sorted le x [] = x ∷ []
  insert_sorted le x (y ∷ ys) = if le x y then x ∷ y ∷ ys else y ∷ insert_sorted le x ys

  -- ORDER BY, stable.
  unfoldable pub order_by : (R → R → Bool) → List R → List R
  unfolding insert_sorted
  order_by le [] = []
  order_by le (x ∷ xs) = insert_sorted le x (order_by le xs)

-- No text stands twice in the list: a PRIMARY KEY or UNIQUE column.
abbrev pub AreDistinct : List String → Type 0
AreDistinct [] = Unit
AreDistinct (k ∷ ks) = (any_by (λ j. j == k) ks ≡ false) × AreDistinct ks

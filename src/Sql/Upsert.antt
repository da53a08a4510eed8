-- ===== src/Sql/Upsert.antt =====
-- INSERT … ON CONFLICT (key) DO UPDATE of every column, and what is selected after it.
use teldrive_lab.Prelude.{
  String, Bool, true, false, none, some, List, [], ◌∷◌, ◌++◌, if◌then◌else◌, ◌==◌, any_by, is_some,
  ◌≡◌, refl, arith, inl, inr, Bool-cases, eq_iff,
}
use teldrive_lab.Sql.{update_where, select_one}

pub any_by-select_one :
    {R : Type 0} (p : R → Bool) (rows : List R) → any_by p rows ≡ is_some (select_one p rows)
unfolding select_one
any_by-select_one p [] = refl
any_by-select_one p (r ∷ rows) = ground (arith, any_by-select_one p rows)

-- A row that is appended is found where none was before.
pub select_one-append :
    {R : Type 0} (p : R → Bool) (row : R) (rows : List R)
    → select_one p (rows ++ row ∷ [])
      ≡ (if any_by p rows then select_one p rows else if p row then some row else none)
unfolding select_one
select_one-append p row [] = refl
select_one-append p row (r ∷ rows) = ground (arith, select_one-append p row rows)

module _ {R : Type 0} (key : R → String) where
  unfoldable pub upsert : R → List R → List R
  unfolding update_where
  upsert new rows =
      if any_by (λ r. key r == key new) rows
      then update_where (λ r. key r == key new) (λ r. new) rows
      else rows ++ new ∷ []

  -- Under the row's own key.
  select_own-update_where :
      (new : R) (k : String) (rows : List R)
      → (key new == k) ≡ true
      → select_one (λ r. key r == k) (update_where (λ r. key r == key new) (λ r. new) rows)
        ≡ (if any_by (λ r. key r == key new) rows then some new else none)
  unfolding select_one update_where
  select_own-update_where new k [] h = refl
  select_own-update_where new k (r ∷ rows) h = ground (
    arith,
    select_own-update_where new k rows h,
    eq_iff (key r) (key new),
    eq_iff (key r) k,
    eq_iff (key new) k,
  )

  -- Under another key.
  select_other-update_where :
      (new : R) (k : String) (rows : List R)
      → (key new == k) ≡ false
      → select_one (λ r. key r == k) (update_where (λ r. key r == key new) (λ r. new) rows)
        ≡ select_one (λ r. key r == k) rows
  unfolding select_one update_where
  select_other-update_where new k [] h = refl
  select_other-update_where new k (r ∷ rows) h = ground (
    arith,
    select_other-update_where new k rows h,
    eq_iff (key r) (key new),
    eq_iff (key r) k,
    eq_iff (key new) k,
  )

  select_one-snoc :
      (new : R) (k : String) (rows : List R)
      → any_by (λ r. key r == key new) rows ≡ false
      → select_one (λ r. key r == k) (rows ++ new ∷ [])
        ≡ (if key new == k then some new else select_one (λ r. key r == k) rows)
  unfolding select_one
  select_one-snoc new k [] h = refl
  select_one-snoc new k (r ∷ rows) h = ground (
    arith,
    select_one-snoc new k rows,
    eq_iff (key r) (key new),
    eq_iff (key r) k,
    eq_iff (key new) k,
  )

  -- After an upsert the row is found under its key, and every other key finds what it found.
  pub select_one-upsert :
      (new : R) (k : String) (rows : List R)
      → select_one (λ r. key r == k) (upsert new rows)
        ≡ (if key new == k then some new else select_one (λ r. key r == k) rows)
  unfolding upsert
  select_one-upsert new k rows = elim (Bool-cases (any_by (λ r. key r == key new) rows)) [
    | inl there ↦ elim (Bool-cases (key new == k)) [
      | inl own ↦ ground (arith, select_own-update_where new k rows own)
      | inr other ↦ ground (arith, select_other-update_where new k rows other)
    ]
    | inr fresh ↦ ground (arith, select_one-snoc new k rows fresh)
  ]

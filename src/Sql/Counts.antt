-- ===== src/Sql/Counts.antt =====
-- How many rows a test counts after a filter, an update or an insert.
use teldrive_lab.Prelude.{
  ◌+◌, Bool, false, ◌&&◌, List, [], ◌∷◌, ◌++◌, if◌then◌else◌, any_by, filter_by, count_by, length,
  ◌≡◌, refl, arith,
}
use teldrive_lab.Sql.{update_where}

module _ {R : Type 0} where
  pub count_by-filter_by :
      (q p : R → Bool) (rows : List R)
      → count_by q (filter_by p rows) ≡ count_by (λ r. p r && q r) rows
  count_by-filter_by q p [] = refl
  count_by-filter_by q p (r ∷ rows) = ground (arith, count_by-filter_by q p rows)

  pub count_by-update_where :
      (q p : R → Bool) (f : R → R) (rows : List R)
      → ((r : R) → q (f r) ≡ q r)
      → count_by q (update_where p f rows) ≡ count_by q rows
  unfolding update_where
  count_by-update_where q p f [] h = refl
  count_by-update_where q p f (r ∷ rows) h = ground (arith, count_by-update_where q p f rows h, h r)

  pub length-update_where :
      (p : R → Bool) (f : R → R) (rows : List R) → length (update_where p f rows) ≡ length rows
  unfolding update_where
  length-update_where p f [] = refl
  length-update_where p f (r ∷ rows) = omega (arith, length-update_where p f rows)

  pub count_by_none : (q : R → Bool) (rows : List R) → any_by q rows ≡ false → count_by q rows ≡ 0
  count_by_none q [] h = refl
  count_by_none q (r ∷ rows) h = ground (arith, count_by_none q rows)

  pub count_by-append :
      (q : R → Bool) (row : R) (rows : List R)
      → count_by q (rows ++ row ∷ []) ≡ count_by q rows + (if q row then 1 else 0)
  count_by-append q row [] = ground arith
  count_by-append q row (r ∷ rows) = ground (arith, count_by-append q row rows)

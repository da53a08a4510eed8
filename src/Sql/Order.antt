-- ===== src/Sql/Order.antt =====
-- ORDER BY: the rows are the same, and each comes before those that it does not come after.
use teldrive_lab.Prelude.{
  Bool, true, false, List, [], ◌∷◌, ◌≡◌, refl, ap₂, ◌∙◌, ◌⊎◌, arith, All, count_by, inl, inr,
  Bool-cases,
}
use mathlib.Core.List.{Permᴰ}
use mathlib.Core.List.Permᴰ
use teldrive_lab.Sql.{insert_sorted, order_by}
use teldrive_lab.Sql.Laws.{All-map}

module _ {R : Type 0} (le : R → R → Bool) where
  All-insert_sorted {ℓ} :
      (P : R → Type ℓ) (x : R) (xs : List R) → P x → All P xs → All P (insert_sorted le x xs)
  unfolding insert_sorted
  All-insert_sorted P x [] h all = (h, tt)
  All-insert_sorted P x (y ∷ ys) h all = elim (Bool-cases (le x y)) [
    | inl e ↦ rw e (h, (all.0, all.1))
    | inr e ↦ rw e (all.0, All-insert_sorted P x ys h all.1)
  ]

  pub All-order_by {ℓ} : (P : R → Type ℓ) (xs : List R) → All P xs → All P (order_by le xs)
  unfolding order_by
  All-order_by P [] all = tt
  All-order_by P (x ∷ xs) all =
      All-insert_sorted P x (order_by le xs) all.0 (All-order_by P xs all.1)

  All-insert_sorted_inv {ℓ} :
      (P : R → Type ℓ) (x : R) (xs : List R) → All P (insert_sorted le x xs) → P x × All P xs
  unfolding insert_sorted
  All-insert_sorted_inv P x [] all = all
  All-insert_sorted_inv P x (y ∷ ys) all = elim (Bool-cases (le x y)) [
    | inl e ↦ let h : All P (x ∷ y ∷ ys) = rw e at all in (h.0, h.1)
    | inr e ↦
        let h : All P (y ∷ insert_sorted le x ys) = rw e at all in
        let (hx, hys) = All-insert_sorted_inv P x ys h.1 in (hx, (h.0, hys))
  ]

  -- Every row is among the sorted rows.
  pub All-order_by_inv {ℓ} : (P : R → Type ℓ) (xs : List R) → All P (order_by le xs) → All P xs
  unfolding order_by
  All-order_by_inv P [] all = tt
  All-order_by_inv P (x ∷ xs) all =
      let (hx, hxs) = All-insert_sorted_inv P x (order_by le xs) all in
      (hx, All-order_by_inv P xs hxs)

  count_by-insert_sorted :
      (p : R → Bool) (x : R) (xs : List R)
      → count_by p (insert_sorted le x xs) ≡ count_by p (x ∷ xs)
  unfolding insert_sorted
  count_by-insert_sorted p x [] = refl
  count_by-insert_sorted p x (y ∷ ys) = ground (arith, count_by-insert_sorted p x ys)

  pub count_by-order_by : (p : R → Bool) (xs : List R) → count_by p (order_by le xs) ≡ count_by p xs
  unfolding order_by
  count_by-order_by p [] = refl
  count_by-order_by p (x ∷ xs) =
      ground (arith, count_by-insert_sorted p x (order_by le xs), count_by-order_by p xs)

  insert_sorted_lem : (x : R) (ys : List R) → Permᴰ (insert_sorted le x ys) (x ∷ ys)
  unfolding insert_sorted
  insert_sorted_lem x [] = Permᴰ.refl (x ∷ [])
  insert_sorted_lem x (y ∷ ys) = elim (Bool-cases (le x y)) [
    | inl e ↦ rw e (Permᴰ.refl (x ∷ y ∷ ys))
    | inr e ↦ rw e (Permᴰ.trans (Permᴰ.cons refl (insert_sorted_lem x ys)) (Permᴰ.swap refl refl))
  ]

  -- The sorted rows are the rows in another order.
  pub order_by_lem : (xs : List R) → Permᴰ (order_by le xs) xs
  unfolding order_by
  order_by_lem [] = Permᴰ.nil
  order_by_lem (x ∷ xs) =
      Permᴰ.trans (insert_sorted_lem x (order_by le xs)) (Permᴰ.cons refl (order_by_lem xs))

  -- Each row is at most every later one.
  abbrev pub IsOrdered : List R → Type 0
  IsOrdered [] = Unit
  IsOrdered (x ∷ xs) = All (λ y. le x y ≡ true) xs × IsOrdered xs

  module _ (total : (a b : R) → (le a b ≡ true) ⊎ (le b a ≡ true))
      (transitive : (a b c : R) → le a b ≡ true → le b c ≡ true → le a c ≡ true) where
    insert_sorted-IsOrdered :
        (x : R) (xs : List R) → IsOrdered xs → IsOrdered (insert_sorted le x xs)
    unfolding insert_sorted
    insert_sorted-IsOrdered x [] h = (tt, tt)
    insert_sorted-IsOrdered x (y ∷ ys) h = elim (Bool-cases (le x y)) [
      | inl e ↦ rw e (
        (e, All-map (λ z. le y z ≡ true) (λ z. le x z ≡ true) ys (λ z g. transitive x y z e g) h.0),
        h,
      )
      | inr e ↦ rw e (
        All-insert_sorted (λ z. le y z ≡ true) x ys (later e) h.0,
        insert_sorted-IsOrdered x ys h.1,
      )
    ]
      where
        later : le x y ≡ false → le y x ≡ true
        later e = elim (total x y) [ inl g ↦ absurd (cc (e, g)) | inr g ↦ g ]

    pub order_by-IsOrdered : (xs : List R) → IsOrdered (order_by le xs)
    unfolding order_by
    order_by-IsOrdered [] = tt
    order_by-IsOrdered (x ∷ xs) = insert_sorted-IsOrdered x (order_by le xs) (order_by-IsOrdered xs)

-- A sort by a total, transitive and antisymmetric order forgets the order of its input.
module _ {R : Type 0} (le : R → R → Bool) (total : (a b : R) → (le a b ≡ true) ⊎ (le b a ≡ true))
    (transitive : (a b c : R) → le a b ≡ true → le b c ≡ true → le a c ≡ true)
    (antisymmetric : (a b : R) → le a b ≡ true → le b a ≡ true → a ≡ b) where
  insert_sorted_comm :
      (x y : R) (l : List R)
      → insert_sorted le x (insert_sorted le y l) ≡ insert_sorted le y (insert_sorted le x l)
  unfolding insert_sorted
  insert_sorted_comm x y [] = ground (arith, total x y, antisymmetric x y)
  insert_sorted_comm x y (z ∷ l) = ground (
    arith,
    total x y,
    antisymmetric x y,
    transitive x y z,
    transitive y x z,
    insert_sorted_comm x y l,
  )

  pub order_by_permᴰ : {xs ys : List R} → Permᴰ xs ys → order_by le xs ≡ order_by le ys
  unfolding order_by
  order_by_permᴰ Permᴰ.nil = refl
  order_by_permᴰ (Permᴰ.cons e p) = ap₂ (insert_sorted le) e (order_by_permᴰ p)
  order_by_permᴰ (Permᴰ.swap {a = a} {b = b} {l = l} e f) =
      insert_sorted_comm a b (order_by le l)
      ∙ ap₂ (λ x y. insert_sorted le x (insert_sorted le y (order_by le l))) f e
  order_by_permᴰ (Permᴰ.trans p q) = order_by_permᴰ p ∙ order_by_permᴰ q

-- ===== src/Sql/Laws.antt =====
-- How the rows of a table change under an UPDATE, and what a SELECT of one row returns.
use teldrive_lab.Prelude.{
  Bool, true, none, some, List, [], ◌∷◌, ◌++◌, map, if◌then◌else◌, ◌≡◌, ◌≢◌, refl, ap, ap₂, arith,
  All, filter_by, count_by, inl, inr, Bool-cases,
}
use teldrive_lab.Sql.{update_where, select_one}

pub All-map {ℓ κ} :
    {A : Type ℓ} (P Q : A → Type κ) (xs : List A) → ((x : A) → P x → Q x) → All P xs → All Q xs
All-map P Q [] h all = tt
All-map P Q (x ∷ xs) h all = (h x all.0, All-map P Q xs h all.1)

pub All-append {ℓ κ} :
    {A : Type ℓ} (P : A → Type κ) (xs ys : List A) → All P xs → All P ys → All P (xs ++ ys)
All-append P [] ys hx hy = hy
All-append P (x ∷ xs) ys hx hy = (hx.0, All-append P xs ys hx.1 hy)

pub All-tautology {ℓ κ} : {A : Type ℓ} (P : A → Type κ) (xs : List A) → ((x : A) → P x) → All P xs
All-tautology P [] h = tt
All-tautology P (x ∷ xs) h = (h x, All-tautology P xs h)

pub All-filter_by {ℓ κ} :
    {A : Type ℓ} (P : A → Type κ) (p : A → Bool) (xs : List A) → All P xs → All P (filter_by p xs)
All-filter_by P p [] all = tt
All-filter_by P p (x ∷ xs) all = elim (Bool-cases (p x)) [
  | inl e ↦ rw e (all.0, All-filter_by P p xs all.1)
  | inr e ↦ rw e (All-filter_by P p xs all.1)
]

-- Every row that a WHERE clause selects passes it.
pub All-filter_by_test {ℓ} :
    {A : Type ℓ} (p : A → Bool) (xs : List A) → All (λ x. p x ≡ true) (filter_by p xs)
All-filter_by_test p [] = tt
All-filter_by_test p (x ∷ xs) = elim (Bool-cases (p x)) [
  | inl e ↦ rw e (e, All-filter_by_test p xs)
  | inr e ↦ rw e (All-filter_by_test p xs)
]

module _ {R : Type 0} where
  -- An UPDATE that matches no row changes nothing.
  pub update_where_none :
      (p : R → Bool) (f : R → R) (rows : List R)
      → count_by p rows ≡ 0
      → update_where p f rows ≡ rows
  unfolding update_where
  update_where_none p f [] h = refl
  update_where_none p f (r ∷ rows) h = elim (Bool-cases (p r)) [
    | inl e ↦ absurd (omega (arith, rw e at h))
    | inr e ↦ rw e (ap (λ t. r ∷ t) (update_where_none p f rows (rw e at h)))
  ]

  pub All-update_where {ℓ} :
      (P : R → Type ℓ) (p : R → Bool) (f : R → R) (rows : List R)
      → ((r : R) → p r ≡ true → P r → P (f r))
      → All P rows
      → All P (update_where p f rows)
  unfolding update_where
  All-update_where P p f [] h all = tt
  All-update_where P p f (r ∷ rows) h all = elim (Bool-cases (p r)) [
    | inl e ↦ rw e (h r e all.0, All-update_where P p f rows h all.1)
    | inr e ↦ rw e (all.0, All-update_where P p f rows h all.1)
  ]

  -- A column that the UPDATE does not set keeps its values.
  pub map-update_where {ℓ} :
      {K : Type ℓ} (key : R → K) (p : R → Bool) (f : R → R) (rows : List R)
      → ((r : R) → key (f r) ≡ key r)
      → map key (update_where p f rows) ≡ map key rows
  unfolding update_where
  map-update_where key p f [] h = refl
  map-update_where key p f (r ∷ rows) h = elim (Bool-cases (p r)) [
    | inl e ↦ rw e (ap₂ (λ k ks. k ∷ ks) (h r) (map-update_where key p f rows h))
    | inr e ↦ rw e (ap (λ ks. key r ∷ ks) (map-update_where key p f rows h))
  ]

  -- Two UPDATEs that agree on every row of the table have one result.
  pub update_where_congr :
      (p q : R → Bool) (f g : R → R) (rows : List R)
      → All (λ r. (if p r then f r else r) ≡ (if q r then g r else r)) rows
      → update_where p f rows ≡ update_where q g rows
  unfolding update_where
  update_where_congr p q f g [] all = refl
  update_where_congr p q f g (r ∷ rows) all =
      ap₂ (λ x xs. x ∷ xs) all.0 (update_where_congr p q f g rows all.1)

  pub select_one_test :
      (p : R → Bool) (rows : List R) (a : R) → select_one p rows ≡ some a → p a ≡ true
  unfolding select_one
  select_one_test p [] a h = cc
  select_one_test p (r ∷ rows) a h = elim (Bool-cases (p r)) [
    | inl e ↦ ground arith
    | inr e ↦ select_one_test p rows a (rw e at h)
  ]

  pub All-select_one {ℓ} :
      (P : R → Type ℓ) (p : R → Bool) (rows : List R) (a : R)
      → select_one p rows ≡ some a
      → All P rows
      → P a
  unfolding select_one
  All-select_one P p [] a h all = absurd (cc)
  All-select_one P p (r ∷ rows) a h all = elim (Bool-cases (p r)) [
    | inl e ↦ let found : some r ≡ some a = rw e at h in let same : r ≡ a = cc in rw (← same) all.0
    | inr e ↦ All-select_one P p rows a (rw e at h) all.1
  ]

  -- No row is selected just when the count of matching rows is 0.
  pub select_one-none :
      (p : R → Bool) (rows : List R) → select_one p rows ≡ none → count_by p rows ≡ 0
  unfolding select_one
  select_one-none p [] h = refl
  select_one-none p (r ∷ rows) h = elim (Bool-cases (p r)) [
    | inl e ↦ ground arith
    | inr e ↦ rw e (select_one-none p rows (rw e at h))
  ]

  pub select_one_of_none :
      (p : R → Bool) (rows : List R) → count_by p rows ≡ 0 → select_one p rows ≡ none
  unfolding select_one
  select_one_of_none p [] h = refl
  select_one_of_none p (r ∷ rows) h = ground (arith, select_one_of_none p rows)

  -- A row that the WHERE clause selects, in a table where some row passes a weaker test.
  pub select_one_weaken :
      (p q : R → Bool) (f : R → R) (rows : List R)
      → ((r : R) → p r ≡ true → (q r ≡ true) × (q (f r) ≡ true))
      → count_by p rows ≢ 0
      → select_one q (update_where p f rows) ≢ none
  unfolding select_one update_where
  select_one_weaken p q f [] h some_row = absurd (some_row refl)
  select_one_weaken p q f (r ∷ rows) h some_row = elim (Bool-cases (p r)) [
    | inl e ↦ rw e (rw ((h r e).1) (λ x. cc))
    | inr e ↦ rw e (elim (Bool-cases (q r)) [
      | inl m ↦ rw m (λ x. cc)
      | inr m ↦ rw m (select_one_weaken p q f rows h (rw e at some_row))
    ])
  ]

pub All-zip {ℓ κ} :
    {A : Type ℓ} (P Q : A → Type κ) (xs : List A) → All P xs → All Q xs → All (λ x. P x × Q x) xs
All-zip P Q [] p q = tt
All-zip P Q (x ∷ xs) p q = ((p.0, q.0), All-zip P Q xs p.1 q.1)

pub All-filter_by_inv {ℓ κ} :
    {A : Type ℓ} (P : A → Type κ) (p : A → Bool) (xs : List A)
    → All P (filter_by p xs)
    → All (λ x. p x ≡ true → P x) xs
All-filter_by_inv P p [] all = tt
All-filter_by_inv P p (x ∷ xs) all = elim (Bool-cases (p x)) [
  | inl e ↦
      let both : All P (x ∷ filter_by p xs) = rw e at all in
      ((λ _. both.0), All-filter_by_inv P p xs both.1)
  | inr e ↦ ((λ h. absurd (cc (e, h))), All-filter_by_inv P p xs (rw e at all))
]

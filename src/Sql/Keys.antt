-- ===== src/Sql/Keys.antt =====
-- What a PRIMARY KEY column gives: one row for each key.
use teldrive_lab.Prelude.{
  Bool, true, false, some, List, [], ◌∷◌, ◌++◌, map, if◌then◌else◌, ◌≡◌, refl, sym, arith, All,
  any_by, String, ◌==◌, eq_iff, inl, inr, Bool-cases,
}
use teldrive_lab.Sql.{select_one, AreDistinct}
use teldrive_lab.Sql.Laws.{All-select_one, select_one_test}

module _ {R : Type 0} (key : R → String) where
  -- A key that is not in the column is the key of no row.
  pub absent :
      (k : String) (rows : List R)
      → any_by (λ j. j == k) (map key rows) ≡ false
      → All (λ r. (key r == k) ≡ false) rows
  absent k [] h = tt
  absent k (r ∷ rows) h = elim (Bool-cases (key r == k)) [
    | inl e ↦ absurd (cc (e, h))
    | inr e ↦ (e, absent k rows (rw e at h))
  ]

  All-other_keys :
      (k : String) (a : R) (rows : List R)
      → All (λ r. (key r == k) ≡ false) rows
      → All (λ r. (key r == k) ≡ true → r ≡ a) rows
  All-other_keys k a [] h = tt
  All-other_keys k a (r ∷ rows) h = ((λ e. cc (e, h.0)), All-other_keys k a rows h.1)

  -- Where keys are distinct, a selected row is the only one with its key.
  pub selected_is_only :
      (p : R → Bool) (k : String) (rows : List R) (a : R)
      → ((r : R) → p r ≡ true → key r ≡ k)
      → AreDistinct (map key rows)
      → select_one p rows ≡ some a
      → All (λ r. (key r == k) ≡ true → r ≡ a) rows
  unfolding select_one
  selected_is_only p k [] a hp distinct h = tt
  selected_is_only p k (r ∷ rows) a hp distinct h = elim (Bool-cases (p r)) [
    | inl e ↦
        let found : some r ≡ some a = rw e at h in
        let same : r ≡ a = cc in
        let others : All (λ x. (key x == k) ≡ false) rows =
          absent k rows (rw (hp r e) at (distinct.0)) in
        ((λ _. same), All-other_keys k a rows others)
    | inr e ↦
        let rest : select_one p rows ≡ some a = rw e at h in
        let key_a : key a ≡ k = hp a (select_one_test p rows a rest) in
        (
          (λ er.
              let key_r : key r ≡ k = (eq_iff (key r) k).0 er in
              let clash : (key a == key r) ≡ false =
                All-select_one (λ x. (key x == key r) ≡ false) p rows a rest
                  (absent (key r) rows distinct.0) in
              let meets : (key a == key r) ≡ true =
                (eq_iff (key a) (key r)).1 (cc (key_a, key_r)) in
              absurd (cc (clash, meets))),
          selected_is_only p k rows a hp distinct.1 rest,
        )
  ]

  heads_differ :
      (r : R) (rows tail : List R)
      → All (λ x. (key x == key r) ≡ false) rows
      → All (λ x. All (λ y. (key y == key x) ≡ true → y ≡ x) tail) rows
      → All (λ x. All (λ y. (key y == key x) ≡ true → y ≡ x) (r ∷ tail)) rows
  heads_differ r [] tail fresh ih = tt
  heads_differ r (x ∷ rows) tail fresh ih = (
    (
      (λ e. absurd (cc (fresh.0, (eq_iff (key x) (key r)).1 (sym ((eq_iff (key r) (key x)).0 e))))),
      ih.0,
    ),
    heads_differ r rows tail fresh.1 ih.1,
  )

  -- Where keys are distinct, two rows with one key are one row.
  pub key_decides :
      (rows : List R)
      → AreDistinct (map key rows)
      → All (λ x. All (λ y. (key y == key x) ≡ true → y ≡ x) rows) rows
  key_decides [] d = tt
  key_decides (r ∷ rows) d =
      let fresh = absent (key r) rows d.0 in
      (
        ((λ _. refl), All-other_keys (key r) r rows fresh),
        heads_differ r rows rows fresh (key_decides rows d.1),
      )

pub any_by-snoc {ℓ} :
    {A : Type ℓ} (p : A → Bool) (xs : List A) (k : A)
    → any_by p (xs ++ k ∷ []) ≡ (if any_by p xs then true else p k)
any_by-snoc p [] k = ground arith
any_by-snoc p (x ∷ xs) k = ground (arith, any_by-snoc p xs k)

-- A new key at the end keeps the keys distinct.
pub AreDistinct-append :
    (ks : List String) (k : String)
    → any_by (λ j. j == k) ks ≡ false
    → AreDistinct ks
    → AreDistinct (ks ++ k ∷ [])
AreDistinct-append [] k h d = (refl, tt)
AreDistinct-append (j ∷ ks) k h d = elim (Bool-cases (j == k)) [
  | inl e ↦ absurd (cc (e, h))
  | inr e ↦ (
    ground (arith, any_by-snoc (λ i. i == j) ks k, eq_iff k j, eq_iff j k, d.0),
    AreDistinct-append ks k (rw e at h) d.1,
  )
]

-- ===== src/Safety/Laws.antt =====
-- What the safety boundary guarantees.
use mathlib.Core.List.{Permᴰ}
use mathlib.Core.List.Permᴰ
use mathlib.Core.Path.{subst}
use teldrive_lab.Prelude.{
  String, Bool, true, false, not, Option, none, some, List, [], ◌∷◌, map, ◌≡◌, refl, ◌∙◌, sym,
  arith, inl, inr, ◌⊎◌, ◌↔◌, Bool-cases, any_by, filter_by, eq_iff, eq_refl, text_le, text_le_total,
  text_le_trans, text_le_antisym,
}
use teldrive_lab.Exec.{ok}
use teldrive_lab.Sql.Order.{order_by_permᴰ, order_by_lem}
use teldrive_lab.Safety.{Operation, is_mutating, same_operation, AuthorizationReceipt}
use teldrive_lab.Safety.Paths.{Host, resolve, is_protected}
use teldrive_lab.Safety.Policy.{
  same_texts, sorted, path_text, requested, for_paths, check_receipt, protected_paths, authorize,
  is_empty, mutation,
}

same_texts_lem : (ss ts : List String) → same_texts ss ts ≡ true → ss ≡ ts
unfolding same_texts
same_texts_lem [] [] h = refl
same_texts_lem [] (t ∷ ts) h = cc
same_texts_lem (s ∷ ss) [] h = cc
same_texts_lem (s ∷ ss) (t ∷ ts) h = ground (arith, eq_iff s t, same_texts_lem ss ts)

pub same_texts_refl : (ss : List String) → same_texts ss ss ≡ true
unfolding same_texts
same_texts_refl [] = refl
same_texts_refl (s ∷ ss) = rw (eq_refl s) (same_texts_refl ss)

-- The list of protected paths is empty just when no path is protected.
none_protected :
    (p : String → Bool) (paths : List String) → is_empty (filter_by p paths) ≡ not (any_by p paths)
none_protected p [] = refl
none_protected p (x ∷ paths) = ground (arith, none_protected p paths)

abbrev pub Approves : Host → Operation → List String → AuthorizationReceipt → Type 0
Approves h operation paths r =
    (r.approved ≡ true) × (r.operation ≡ operation) × (r.paths ≡ requested h paths)

same_operation_lem : (a b : Operation) → same_operation a b ≡ true → a ≡ b
same_operation_lem a b h = ground arith

pub same_operation_refl : (a : Operation) → same_operation a a ≡ true
same_operation_refl a = ground arith

check_receipt_lem :
    (h : Host) (operation : Operation) (paths : List String) (r : AuthorizationReceipt)
    → ((check_receipt h operation paths r).allowed ≡ true) ↔ Approves h operation paths r
unfolding check_receipt
check_receipt_lem h operation paths r = (
  (λ e. (
    ground arith,
    same_operation_lem r.operation operation (ground arith),
    same_texts_lem r.paths (requested h paths) (ground arith),
  )),
  (λ (approved, same, scope). ground (
    arith,
    approved,
    approved_tests r.operation operation r.paths (requested h paths) same scope,
  )),
)
  where
    approved_tests :
        (a b : Operation) (ss ts : List String)
        → a ≡ b
        → ss ≡ ts
        → (same_operation a b ≡ true) × (same_texts ss ts ≡ true)
    approved_tests a b ss ts p q = (ground arith, rw q (same_texts_refl ts))

mutation_iff :
    (h : Host) (operation : Operation) (paths : List String) (explicit : Bool)
    (receipt : Option AuthorizationReceipt)
    → ((mutation h operation paths explicit receipt).allowed ≡ true) ↔ (
        ((r : AuthorizationReceipt) × (receipt ≡ some r) × Approves h operation paths r)
        ⊎ ((receipt ≡ none) × (explicit ≡ true)))
mutation_iff h operation paths explicit none = (
  (λ a. inr (refl, ground arith)),
  (λ approved. elim approved [ inl (r, e, a) ↦ absurd (cc) | inr (e, x) ↦ rw x refl ]),
)
mutation_iff h operation paths explicit (some r) = (
  (λ a. inl (r, refl, (check_receipt_lem h operation paths r).0 a)),
  (λ approved. elim approved [
    | inl (q, e, a) ↦
        let same : r ≡ q = cc in
        (check_receipt_lem h operation paths r).1 (subst (Approves h operation paths) (sym same) a)
    | inr (e, x) ↦ absurd (cc)
  ]),
)

-- `authorize` allows an operation exactly when it does not mutate, or when none of its paths is
-- protected and either an approved receipt for this operation and exactly these paths is given,
-- or no receipt is given and the caller authorizes explicitly.
pub authorize_iff :
    (h : Host) (operation : Operation) (paths : List String) (explicit : Bool)
    (receipt : Option AuthorizationReceipt)
    → ((authorize h operation paths explicit receipt).allowed ≡ true) ↔ (
        (is_mutating operation ≡ false)
        ⊎ ((any_by (is_protected h) paths ≡ false)
            × (((r : AuthorizationReceipt) × (receipt ≡ some r) × Approves h operation paths r)
                ⊎ ((receipt ≡ none) × (explicit ≡ true)))))
unfolding authorize protected_paths
authorize_iff h operation paths explicit receipt = elim (Bool-cases (is_mutating operation)) [
  | inr reads ↦ ((λ a. inl reads), (λ allowed. ground arith))
  | inl writes ↦ elim (Bool-cases (any_by (is_protected h) paths)) [
    | inl touches ↦ (
      (λ a. absurd (ground (arith, none_protected (is_protected h) paths))),
      (λ allowed. absurd (ground arith)),
    )
    | inr clear ↦
        let (to, from) = mutation_iff h operation paths explicit receipt in
        (
          (λ a. inr (clear, to (ground (arith, none_protected (is_protected h) paths)))),
          (λ allowed. elim allowed [
            | inl reads ↦ absurd (cc (reads, writes))
            | inr (c, approved) ↦
                ground (arith, from approved, none_protected (is_protected h) paths)
          ]),
        )
  ]
]

-- A mutation that names a protected path is denied, whatever receipt is shown and whatever the
-- caller authorizes, and no authorization can be asked for it.
pub protected_mutation_denied :
    (h : Host) (operation : Operation) (paths : List String) (explicit : Bool)
    (receipt : Option AuthorizationReceipt)
    → is_mutating operation ≡ true
    → any_by (is_protected h) paths ≡ true
    → let d = authorize h operation paths explicit receipt in
      (d.allowed ≡ false) × (d.requires_authorization ≡ false)
unfolding authorize protected_paths
protected_mutation_denied h operation paths explicit receipt writes touches = (
  ground (arith, none_protected (is_protected h) paths),
  ground (arith, none_protected (is_protected h) paths),
)

-- The paths that a list of texts names.
abbrev pub named : Host → List String → List String
named h ps = map (λ p. path_text (resolve h p)) ps

same_scope :
    (h : Host) (ps qs : List String)
    → Permᴰ (named h ps) (named h qs)
    → requested h ps ≡ requested h qs
unfolding requested sorted
same_scope h ps qs p = order_by_permᴰ text_le text_le_total text_le_trans text_le_antisym p

scope_permᴰ :
    (h : Host) (ps qs : List String)
    → requested h ps ≡ requested h qs
    → Permᴰ (named h ps) (named h qs)
unfolding requested sorted
scope_permᴰ h ps qs e =
    Permᴰ.trans (Permᴰ.symm (order_by_lem text_le (named h ps)))
      (subst (λ xs. Permᴰ xs (named h qs)) (sym e) (order_by_lem text_le (named h qs)))

-- What a receipt of `for_paths` approves.
issued_iff :
    (h : Host) (operation used : Operation) (ps qs : List String) (id : String)
    (r : AuthorizationReceipt)
    → for_paths h operation ps id ≡ ok r
    → Approves h used qs r ↔ ((used ≡ operation) × Permᴰ (named h ps) (named h qs))
unfolding for_paths
issued_iff h operation used ps qs id r issued =
    let op : r.operation ≡ operation = ground arith in
    let scope : r.paths ≡ requested h ps = ground arith in
    let approved : r.approved ≡ true = ground arith in
    (
      (λ (a, same, paths). (sym same ∙ op, scope_permᴰ h ps qs (sym scope ∙ paths))),
      (λ (same, perm). (approved, op ∙ sym same, scope ∙ same_scope h ps qs perm)),
    )

-- With a receipt that `for_paths` issued for an operation on paths, whatever the caller authorizes
-- besides, `authorize` allows exactly the operations that do not mutate, and that operation on a
-- list that names the same paths, in any order and as often, none of which is protected.
pub issued_receipt_iff :
    (h : Host) (operation used : Operation) (ps qs : List String) (id : String) (explicit : Bool)
    (r : AuthorizationReceipt)
    → for_paths h operation ps id ≡ ok r
    → ((authorize h used qs explicit (some r)).allowed ≡ true) ↔ (
        (is_mutating used ≡ false)
        ⊎ ((used ≡ operation)
            × Permᴰ (named h ps) (named h qs)
            × (any_by (is_protected h) qs ≡ false)))
issued_receipt_iff h operation used ps qs id explicit r issued =
    let (to, from) = authorize_iff h used qs explicit (some r) in
    let (to_scope, from_scope) = issued_iff h operation used ps qs id r issued in
    (
      (λ allowed. elim (to allowed) [
        | inl reads ↦ inl reads
        | inr (clear, inl (shown, e, a)) ↦
            let same : r ≡ shown = cc in
            let (own, perm) = to_scope (subst (Approves h used qs) (sym same) a) in
            inr (own, perm, clear)
        | inr (clear, inr (e, x)) ↦ absurd (cc)
      ]),
      (λ covered. elim covered [
        | inl reads ↦ from (inl reads)
        | inr (own, perm, clear) ↦ from (inr (clear, inl (r, refl, from_scope (own, perm))))
      ]),
    )

-- ===== src/Integrity/Groups.antt =====
-- What a group of duplicates is made of.
use teldrive_lab.Prelude.{
  ℕ, ◌+◌, ◌≤◌, String, Bool, true, false, ◌&&◌, Option, none, some, List, [], ◌∷◌, ◌++◌, ◌≡◌, refl,
  arith, any_by, length, inl, inr, Bool-cases, ℤ, pos, negsuc, ◌==◌, All, eqb, ltb, text_le, eq_iff,
  eq_refl, count_by, holds,
}
use teldrive_lab.Sql.{order_by}
use teldrive_lab.Sql.Laws.{All-map}
use teldrive_lab.Sql.Order.{All-order_by, count_by-order_by}
use teldrive_lab.Sql.Counts.{count_by_none}
use teldrive_lab.Text.{distinct}
use teldrive_lab.Models.{FileRecord}
use teldrive_lab.Integrity.{
  Groups, DuplicateGroup, add_path, add_known, grouped, duplicates_of, duplicate_groups, group_le,
}

-- The record has this size and this sum.
abbrev pub has_size : Option ℤ → ℕ → Bool
has_size (some (pos m)) n = eqb m n
has_size _ n = false

abbrev pub witnesses : ℕ → String → String → FileRecord → Bool
witnesses size digest path r = r.path == path && (has_size r.size size && holds r.sha256 digest)

module _ (records : List FileRecord) where
  -- Some record has this path, size and sum.
  abbrev pub Known : ℕ → String → String → Type 0
  Known size digest path = any_by (witnesses size digest path) records ≡ true

  abbrev Sound : Groups → Type 0
  Sound groups = All (λ g. All (Known g.0.0 g.0.1) g.1) groups

  All-snoc :
      {A : Type 0} (P : A → Type 0) (xs : List A) (x : A) → All P xs → P x → All P (xs ++ x ∷ [])
  All-snoc P [] x h p = (p, tt)
  All-snoc P (y ∷ xs) x (q, h) p = (q, All-snoc P xs x h p)

  add_path-Sound :
      (size : ℕ) (digest path : String) (groups : Groups)
      → Known size digest path
      → Sound groups
      → Sound (add_path size digest path groups)
  unfolding add_path
  add_path-Sound size digest path [] known sound = ((known, tt), tt)
  add_path-Sound size digest path (((n, d), paths) ∷ groups) known (g, sound) =
      elim (Bool-cases (eqb n size && d == digest)) [
        | inl same ↦
            let sizes : size ≡ n = ground arith in
            let sums : digest ≡ d = ground (arith, eq_iff d digest) in
            let known' : Known n d path = rw (← sizes) (rw (← sums) known) in
            rw same (All-snoc (Known n d) paths path g known', sound)
        | inr other ↦ rw other (g, add_path-Sound size digest path groups known sound)
      ]

  -- The rest of the records, each of them one of all.
  abbrev AreKnown : List FileRecord → Type 0
  AreKnown rest =
      All
        (λ r.
          (n : ℕ) (d : String)
          → has_size r.size n ≡ true
          → holds r.sha256 d ≡ true
          → Known n d r.path)
        rest

  add_known-Sound :
      (digest : Option String) (size : Option ℤ) (path : String) (groups : Groups)
      → ((n : ℕ) (d : String) → has_size size n ≡ true → holds digest d ≡ true → Known n d path)
      → Sound groups
      → Sound (add_known digest size path groups)
  add_known-Sound none size path groups known sound = sound
  add_known-Sound (some d) none path groups known sound = sound
  add_known-Sound (some d) (some (negsuc n)) path groups known sound = sound
  add_known-Sound (some d) (some (pos n)) path groups known sound = elim (Bool-cases (d == "")) [
    | inl empty ↦ rw empty sound
    | inr given ↦
        rw given (add_path-Sound n d path groups (known n d (ground arith) (eq_refl d)) sound)
  ]

  grouped-Sound :
      (rest : List FileRecord) (groups : Groups)
      → AreKnown rest
      → Sound groups
      → Sound (grouped rest groups)
  unfolding grouped
  grouped-Sound [] groups known sound = sound
  grouped-Sound (r ∷ rest) groups (k, known) sound =
      grouped-Sound rest _ known (add_known-Sound r.sha256 r.size r.path groups k sound)

  distinct-All : (P : String → Type 0) (paths : List String) → All P paths → All P (distinct paths)
  unfolding distinct
  distinct-All P [] h = tt
  distinct-All P (p ∷ paths) (q, h) = elim (Bool-cases (any_by (λ q. q == p) (distinct paths))) [
    | inl there ↦ rw there (distinct-All P paths h)
    | inr new ↦ rw new (q, distinct-All P paths h)
  ]

any_by_cons :
    {A : Type 0} (p : A → Bool) (x : A) (xs : List A)
    → any_by p xs ≡ true
    → any_by p (x ∷ xs) ≡ true
any_by_cons p x xs h = ground arith

records_known : (l : List FileRecord) → AreKnown l l
records_known [] = tt
records_known (r ∷ l) = (
  (λ n d sized summed. rw (eq_refl r.path) (rw sized (rw summed refl))),
  All-map _ _ l
      (λ s known n d sized summed. any_by_cons (witnesses n d s.path) r l (known n d sized summed))
      (records_known l),
)

count_by_cons :
    (q p : String) (paths : List String)
    → count_by (λ x. x == p) (q ∷ paths) ≤ 1 + count_by (λ x. x == p) paths
count_by_cons q p paths = ground arith

distinct_once : (paths : List String) (p : String) → count_by (λ q. q == p) (distinct paths) ≤ 1
unfolding distinct
distinct_once [] p = omega arith
distinct_once (q ∷ paths) p = elim (Bool-cases (any_by (λ x. x == q) (distinct paths))) [
  | inl there ↦ rw there (distinct_once paths p)
  | inr new ↦ rw new (elim (Bool-cases (q == p)) [
    | inl same ↦
        let path : q ≡ p = ground (arith, eq_iff q p) in
        let none_left : any_by (λ x. x == p) (distinct paths) ≡ false = rw (← path) new in
        omega (
          arith,
          count_by_cons q p (distinct paths),
          count_by_none (λ x. x == p) (distinct paths) none_left,
        )
    | inr other ↦ rw other (distinct_once paths p)
  ])
]

count_all : {A : Type 0} (xs : List A) → count_by (λ x. true) xs ≡ length xs
count_all [] = refl
count_all (x ∷ xs) = omega (arith, count_all xs)

-- At least two paths, no path twice, and each that of a record with this size and sum.
abbrev pub IsDuplicate : List FileRecord → DuplicateGroup → Type 0
IsDuplicate records g =
    (2 ≤ length g.paths)
    × ((p : String) → count_by (λ q. q == p) g.paths ≤ 1)
    × All (Known records g.size g.sha256) g.paths

group_of :
    (records : List FileRecord) (n : ℕ) (d : String) (paths : List String)
    → ltb 1 (length (distinct paths)) ≡ true
    → All (Known records n d) paths
    → IsDuplicate records
        (record { size = n; sha256 = d; paths = order_by text_le (distinct paths) })
group_of records n d paths many known = (
  ground (
    arith,
    count_all (order_by text_le (distinct paths)),
    count_all (distinct paths),
    count_by-order_by text_le (λ x. true) (distinct paths),
  ),
  (λ p.
      omega
        (arith, distinct_once paths p, count_by-order_by text_le (λ q. q == p) (distinct paths))),
  All-order_by text_le (Known records n d) (distinct paths)
      (distinct-All records (Known records n d) paths known),
)

duplicates_of-IsDuplicate :
    (records : List FileRecord) (groups : Groups)
    → Sound records groups
    → All (IsDuplicate records) (duplicates_of groups)
unfolding duplicates_of
duplicates_of-IsDuplicate records [] sound = tt
duplicates_of-IsDuplicate records (((n, d), paths) ∷ groups) (known, sound) =
    elim (Bool-cases (ltb 1 (length (distinct paths)))) [
      | inl many ↦
          rw many
            (group_of records n d paths many known, duplicates_of-IsDuplicate records groups sound)
      | inr few ↦ rw few (duplicates_of-IsDuplicate records groups sound)
    ]

-- Every group that `duplicate_groups` reports has at least two paths, none of them twice, and each is the path
-- of a record that has the group's size and sum.
pub duplicate_groups-IsDuplicate :
    (records : List FileRecord) → All (IsDuplicate records) (duplicate_groups records)
unfolding duplicate_groups
duplicate_groups-IsDuplicate records =
    All-order_by group_le (IsDuplicate records) (duplicates_of (grouped records [])) (
      duplicates_of-IsDuplicate records (grouped records [])
        (grouped-Sound records records [] (records_known records) tt))

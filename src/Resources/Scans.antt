-- ===== src/Resources/Scans.antt =====
-- The scan of one directory: what it yields before the events that come after it, and which directories it enters.
use teldrive_lab.Prelude.{
  ℕ, suc, ◌≤◌, Bool, Option, none, some, List, [], ◌∷◌, ◌++◌, map, ltb, ◌≡◌, refl, ap, arith, inl,
  inr, Bool-cases, text_le,
}
use teldrive_lab.Sql.{order_by}
use teldrive_lab.Resources.{
  Location, DirEntry, WalkError, Visit, skip, descend, too_deep, file, Yielded, Pending, entries_of,
  classify, visits_of, with_files, Scan, scan, extend, reverse_onto,
}
use teldrive_lab.Resources.Preorder.{Event, own_events, own_children, limited, and_file}

pub extend-reverse_onto :
    (children done stack : Pending)
    → extend (reverse_onto children done) stack ≡ extend done (children ++ stack)
extend-reverse_onto [] done stack = refl
extend-reverse_onto (p ∷ children) done stack = extend-reverse_onto children (p ∷ done) stack

pub append_assoc : {A : Type 0} (xs ys zs : List A) → (xs ++ ys) ++ zs ≡ xs ++ (ys ++ zs)
append_assoc [] ys zs = refl
append_assoc (x ∷ xs) ys zs = ap (λ l. x ∷ l) (append_assoc xs ys zs)

module _ (listing : Location → Option (List DirEntry)) (base : Location) (max_depth max_files : ℕ)
    (follow_symlinks : Bool) where
  abbrev pub one_scan : ℕ → List Visit → Scan
  one_scan = scan listing base max_depth max_files follow_symlinks

  abbrev pub ended : Option WalkError → List Location → Yielded → Yielded
  ended none files y = with_files files y
  ended (some e) files y = (files, some e)

  ended_file :
      (o : Option WalkError) (files : List Location) (y : Yielded) (p : Location)
      → and_file p (ended o files y) ≡ ended o (p ∷ files) y
  ended_file none files y p = refl
  ended_file (some e) files y p = refl

  -- What a scan says of the events that come after it.
  abbrev pub then_limited : Scan → List Event → Yielded
  then_limited s events = ended s.error s.files (limited max_files s.count events)

  pub limited-own_events :
      (count : ℕ) (visits : List Visit) (events : List Event)
      → limited max_files count (own_events visits ++ events)
        ≡ then_limited (one_scan count visits) events
  unfolding scan limited own_events
  limited-own_events count [] events = refl
  limited-own_events count (skip ∷ visits) events = limited-own_events count visits events
  limited-own_events count (descend p ∷ visits) events = limited-own_events count visits events
  limited-own_events count (too_deep p ∷ visits) events = refl
  limited-own_events count (file p ∷ visits) events =
      elim (Bool-cases (ltb max_files (suc count))) [
        | inl over ↦ rw over refl
        | inr room ↦ rw room (
            rw (limited-own_events (suc count) visits events) (
              ended_file (one_scan (suc count) visits).error (one_scan (suc count) visits).files _
                p))
      ]

  pub scan-children :
      (count : ℕ) (visits : List Visit)
      → (one_scan count visits).error ≡ none
      → (one_scan count visits).children ≡ own_children visits
  unfolding scan own_children
  scan-children count [] h = refl
  scan-children count (skip ∷ visits) h = scan-children count visits h
  scan-children count (descend p ∷ visits) h = ap (λ l. p ∷ l) (scan-children count visits h)
  scan-children count (too_deep p ∷ visits) h = absurd (cc)
  scan-children count (file p ∷ visits) h = ground (arith, scan-children (suc count) visits)

  abbrev pub visits_at : ℕ → Location → List Visit
  visits_at = entries_of listing base max_depth max_files follow_symlinks

  no_children :
      (depth : ℕ)
      → max_depth ≤ depth
      → (entries : List DirEntry)
      → own_children (map (classify listing base max_depth max_files follow_symlinks depth) entries)
        ≡ []
  unfolding own_children classify
  no_children depth deep_enough [] = refl
  no_children depth deep_enough (e ∷ entries) =
      ground (arith, no_children depth deep_enough entries)

  -- At the last depth no directory is entered.
  pub entries_of-children :
      (depth : ℕ) (p : Location) → max_depth ≤ depth → own_children (visits_at depth p) ≡ []
  unfolding entries_of own_children
  entries_of-children depth p deep_enough =
      elim (listing p)
        as (λ o.
          own_children (visits_of listing base max_depth max_files follow_symlinks depth o) ≡ []) [
            | none ↦ refl
            | some entries ↦
                no_children depth deep_enough (order_by (λ a b. text_le a.name b.name) entries)
          ]

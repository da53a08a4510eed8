-- ===== src/Resources/Bounds.antt =====
-- `iter_files` as a whole: it ends, it yields the files in pre-order, and it keeps its limits.
use teldrive_lab.Prelude.{
  ℕ, zero, suc, ◌+◌, ◌≤◌, Bool, true, Option, none, some, List, [], ◌∷◌, map, ltb, ◌≡◌, arith,
  length, inl, inr, Bool-cases, All, text_le, pos,
}
use teldrive_lab.Sql.{order_by}
use teldrive_lab.Sql.Laws.{All-append}
use teldrive_lab.Safety.Paths.{is_within}
use teldrive_lab.Resources.{
  Location, DirEntry, WalkError, Visit, skip, descend, too_deep, file, classify, entries_of,
  visits_of, iter_files,
}
use teldrive_lab.Resources.Preorder.{
  Event, found, deep, own_events, all_events, limited, preorder, directories,
}
use teldrive_lab.Resources.Walk.{walk_root}

limited-length :
    (max_files count : ℕ) (events : List Event)
    → count ≤ max_files
    → count + length (limited max_files count events).0 ≤ max_files
unfolding limited
limited-length max_files count [] le = omega arith
limited-length max_files count (deep p ∷ events) le = omega arith
limited-length max_files count (found p ∷ events) le =
    ground (arith, limited-length max_files (suc count) events)

module _ (base : Location) where
  -- The event is of a path below the root.
  abbrev inside : Event → Bool
  inside (found p) = is_within base p
  inside (deep p) = is_within base p

  abbrev visit_inside : Visit → Bool
  visit_inside (file p) = is_within base p
  visit_inside (too_deep p) = is_within base p
  visit_inside (descend p) = is_within base p
  visit_inside skip = true

  limited-inside :
      (max_files count : ℕ) (events : List Event)
      → All (λ e. inside e ≡ true) events
      → All (λ p. is_within base p ≡ true) (limited max_files count events).0
  unfolding limited
  limited-inside max_files count [] ok = tt
  limited-inside max_files count (deep p ∷ events) ok = tt
  limited-inside max_files count (found p ∷ events) (ok, rest) =
      elim (Bool-cases (ltb max_files (suc count))) [
        | inl over ↦ rw over tt
        | inr room ↦ rw room (ok, limited-inside max_files (suc count) events rest)
      ]

  own_events-inside :
      (visits : List Visit)
      → All (λ v. visit_inside v ≡ true) visits
      → All (λ e. inside e ≡ true) (own_events visits)
  unfolding own_events
  own_events-inside [] ok = tt
  own_events-inside (skip ∷ visits) (ok, rest) = own_events-inside visits rest
  own_events-inside (descend p ∷ visits) (ok, rest) = own_events-inside visits rest
  own_events-inside (too_deep p ∷ visits) (ok, rest) = (ok, own_events-inside visits rest)
  own_events-inside (file p ∷ visits) (ok, rest) = (ok, own_events-inside visits rest)

  all_events-inside :
      (f : Location → List Event) (ps : List Location)
      → ((p : Location) → All (λ e. inside e ≡ true) (f p))
      → All (λ e. inside e ≡ true) (all_events f ps)
  all_events-inside f [] ok = tt
  all_events-inside f (p ∷ ps) ok =
      All-append (λ e. inside e ≡ true) (f p) _ (ok p) (all_events-inside f ps ok)

module _ (listing : Location → Option (List DirEntry)) (base : Location) (max_depth max_files : ℕ)
    (follow_symlinks : Bool) where
  classify-inside :
      (depth : ℕ) (e : DirEntry)
      → visit_inside base (classify listing base max_depth max_files follow_symlinks depth e) ≡ true
  unfolding classify
  classify-inside depth e = ground arith

  entries_of-inside :
      (depth : ℕ) (p : Location)
      → All
          (λ v. visit_inside base v ≡ true)
          (entries_of listing base max_depth max_files follow_symlinks depth p)
  unfolding entries_of
  entries_of-inside depth p = visits_inside (listing p)
    where
      all_inside :
          (entries : List DirEntry)
          → All
              (λ v. visit_inside base v ≡ true)
              (map (classify listing base max_depth max_files follow_symlinks depth) entries)
      all_inside [] = tt
      all_inside (e ∷ entries) = (classify-inside depth e, all_inside entries)

      visits_inside :
          (o : Option (List DirEntry))
          → All
              (λ v. visit_inside base v ≡ true)
              (visits_of listing base max_depth max_files follow_symlinks depth o)
      visits_inside none = tt
      visits_inside (some entries) = all_inside (order_by (λ a b. text_le a.name b.name) entries)

  preorder-inside :
      (left depth : ℕ) (p : Location)
      → All
          (λ e. inside base e ≡ true)
          (preorder listing base max_depth max_files follow_symlinks left depth p)
  unfolding preorder
  preorder-inside zero depth p = own_events-inside base _ (entries_of-inside depth p)
  preorder-inside (suc left) depth p =
      All-append (λ e. inside base e ≡ true) _ _
        (own_events-inside base _ (entries_of-inside depth p))
        (all_events-inside base _ _ (preorder-inside left (suc depth)))

  -- Where the root is a directory and the limits are not negative, `iter_files` ends within as many turns
  -- as the walk reads directories, also when directories form a cycle of links, and it yields and raises
  -- what the walk in pre-order does, cut at the limits.
  pub iter_files-preorder :
      (fuel : ℕ)
      → directories listing base max_depth max_files follow_symlinks max_depth 0 base ≤ fuel
      → iter_files listing true true base (pos max_depth) (pos max_files) follow_symlinks fuel
        ≡ some (
            limited max_files 0
              (preorder listing base max_depth max_files follow_symlinks max_depth 0 base))
  unfolding iter_files
  iter_files-preorder fuel enough =
      walk_root listing base max_depth max_files follow_symlinks fuel enough

  -- With that fuel `iter_files` yields no more files than its limit, and only files below its root.
  pub iter_files_bounds :
      (fuel : ℕ)
      → directories listing base max_depth max_files follow_symlinks max_depth 0 base ≤ fuel
      → (files : List Location) × (e : Option WalkError) × (iter_files listing true true base
            (pos max_depth)
            (pos max_files)
            follow_symlinks
            fuel
          ≡ some (files, e))
        × (length files ≤ max_files)
        × All (λ p. is_within base p ≡ true) files
  iter_files_bounds fuel enough =
      let events = preorder listing base max_depth max_files follow_symlinks max_depth 0 base in
      let y = limited max_files 0 events in
      (
        y.0,
        y.1,
        iter_files-preorder fuel enough,
        omega (arith, limited-length max_files 0 events (omega arith)),
        limited-inside base max_files 0 events (preorder-inside max_depth 0 base),
      )

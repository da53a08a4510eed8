-- ===== src/Resources/Walk.antt =====
-- The loop over the stack ends, and yields what the walk in pre-order yields.
use teldrive_lab.Prelude.{
  ℕ, zero, suc, ◌+◌, ◌-◌, ◌≤◌, Bool, Option, some, List, [], ◌∷◌, ◌++◌, ltb, ◌≡◌, refl, sym, ap,
  ◌∙◌, arith, inl, inr, Bool-cases, Option-cases, All,
}
use teldrive_lab.Resources.{
  Location, DirEntry, Yielded, Pending, unless_raised, walk, extend, reverse_onto, at_depth,
}
use teldrive_lab.Resources.Preorder.{
  Event, own_events, own_children, all_events, all_sizes, limited, preorder, directories,
  pending_events, pending_size,
}
use teldrive_lab.Resources.Scans.{
  extend-reverse_onto, append_assoc, one_scan, then_limited, limited-own_events, scan-children,
  visits_at, entries_of-children,
}

module _ (listing : Location → Option (List DirEntry)) (base : Location) (max_depth max_files : ℕ)
    (follow_symlinks : Bool) where
  abbrev events_of : Pending → List Event
  events_of = pending_events listing base max_depth max_files follow_symlinks

  abbrev size_of : Pending → ℕ
  size_of = pending_size listing base max_depth max_files follow_symlinks

  pending_events-at_depth :
      (left depth : ℕ) (ps : List Location)
      → left + depth ≡ max_depth
      → events_of (at_depth depth ps)
        ≡ all_events (preorder listing base max_depth max_files follow_symlinks left depth) ps
  unfolding pending_events
  pending_events-at_depth left depth [] e = refl
  pending_events-at_depth left depth (p ∷ ps) e =
      let same : max_depth - depth ≡ left = omega arith in
      rw same (rw (pending_events-at_depth left depth ps e) refl)

  pending_size-at_depth :
      (left depth : ℕ) (ps : List Location)
      → left + depth ≡ max_depth
      → size_of (at_depth depth ps)
        ≡ all_sizes (directories listing base max_depth max_files follow_symlinks left depth) ps
  unfolding pending_size
  pending_size-at_depth left depth [] e = refl
  pending_size-at_depth left depth (p ∷ ps) e =
      let same : max_depth - depth ≡ left = omega arith in
      rw same (rw (pending_size-at_depth left depth ps e) refl)

  append_nil : {A : Type 0} (xs : List A) → xs ++ [] ≡ xs
  append_nil [] = refl
  append_nil (x ∷ xs) = ap (λ l. x ∷ l) (append_nil xs)

  preorder_at :
      (left depth : ℕ) (p : Location)
      → left + depth ≡ max_depth
      → preorder listing base max_depth max_files follow_symlinks left depth p
        ≡ own_events ((visits_at listing base max_depth max_files follow_symlinks) depth p)
          ++ events_of (
              at_depth (suc depth) (
                own_children
                  ((visits_at listing base max_depth max_files follow_symlinks) depth p)))
  unfolding preorder pending_events
  preorder_at zero depth p e =
      rw
        (entries_of-children listing base max_depth max_files follow_symlinks depth p (omega arith))
        (sym (
          append_nil
            (own_events ((visits_at listing base max_depth max_files follow_symlinks) depth p))))
  preorder_at (suc left) depth p e =
      rw
        (pending_events-at_depth left (suc depth)
          (own_children ((visits_at listing base max_depth max_files follow_symlinks) depth p))
          (omega arith))
        refl

  directories_at :
      (left depth : ℕ) (p : Location)
      → left + depth ≡ max_depth
      → directories listing base max_depth max_files follow_symlinks left depth p
        ≡ suc (
            size_of (
              at_depth (suc depth) (
                own_children
                  ((visits_at listing base max_depth max_files follow_symlinks) depth p))))
  unfolding directories pending_size
  directories_at zero depth p e =
      rw
        (entries_of-children listing base max_depth max_files follow_symlinks depth p (omega arith))
        refl
  directories_at (suc left) depth p e =
      rw
        (pending_size-at_depth left (suc depth)
          (own_children ((visits_at listing base max_depth max_files follow_symlinks) depth p))
          (omega arith))
        refl

  pending_events-append : (s t : Pending) → events_of (s ++ t) ≡ events_of s ++ events_of t
  unfolding pending_events
  pending_events-append [] t = refl
  pending_events-append ((p, k) ∷ s) t =
      rw (pending_events-append s t) (sym (append_assoc _ (events_of s) (events_of t)))

  pending_size-append : (s t : Pending) → size_of (s ++ t) ≡ size_of s + size_of t
  unfolding pending_size
  pending_size-append [] t = omega arith
  pending_size-append ((p, k) ∷ s) t = omega (arith, pending_size-append s t)

  -- Every pending directory stands within the depth.
  abbrev IsShallow : Pending → Type 0
  IsShallow stack = All (λ t. t.1 ≤ max_depth) stack

  at_depth-IsShallow :
      (depth : ℕ) (ps : List Location) → depth ≤ max_depth → IsShallow (at_depth depth ps)
  at_depth-IsShallow depth [] le = tt
  at_depth-IsShallow depth (p ∷ ps) le = (le, at_depth-IsShallow depth ps le)

  append-IsShallow : (s t : Pending) → IsShallow s → IsShallow t → IsShallow (s ++ t)
  append-IsShallow [] t a b = b
  append-IsShallow (p ∷ s) t (a, rest) b = (a, append-IsShallow s t rest b)

  children-IsShallow :
      (depth : ℕ) (p : Location)
      → depth ≤ max_depth
      → IsShallow (
          at_depth
            (suc depth)
            (own_children ((visits_at listing base max_depth max_files follow_symlinks) depth p)))
  children-IsShallow depth p le = elim (Bool-cases (ltb depth max_depth)) [
    | inl below ↦
        at_depth-IsShallow (suc depth)
          (own_children ((visits_at listing base max_depth max_files follow_symlinks) depth p))
          (ground arith)
    | inr deepest ↦
        rw
          (entries_of-children listing base max_depth max_files follow_symlinks depth p
            (ground arith))
          tt
  ]

  -- One turn of the loop, on the events.
  events_step :
      (count depth : ℕ) (p : Location) (stack : Pending)
      → depth ≤ max_depth
      → limited max_files count (events_of ((p, depth) ∷ stack))
        ≡ (then_limited listing base max_depth max_files follow_symlinks)
            ((one_scan listing base max_depth max_files follow_symlinks) count
              ((visits_at listing base max_depth max_files follow_symlinks) depth p))
            (events_of (
              at_depth (suc depth) (
                own_children ((visits_at listing base max_depth max_files follow_symlinks) depth p))
              ++ stack))
  unfolding pending_events
  events_step count depth p stack le =
      let children =
        at_depth (suc depth)
          (own_children ((visits_at listing base max_depth max_files follow_symlinks) depth p)) in
      rw (preorder_at (max_depth - depth) depth p (omega arith)) (
        rw
          (append_assoc
            (own_events ((visits_at listing base max_depth max_files follow_symlinks) depth p))
            (events_of children) (events_of stack))
          (rw (← (pending_events-append children stack)) (
            limited-own_events listing base max_depth max_files follow_symlinks count
              ((visits_at listing base max_depth max_files follow_symlinks) depth p)
              (events_of (children ++ stack)))))

  size_step :
      (depth : ℕ) (p : Location) (stack : Pending)
      → depth ≤ max_depth
      → size_of ((p, depth) ∷ stack)
        ≡ suc (
            size_of (
              at_depth (suc depth) (
                own_children ((visits_at listing base max_depth max_files follow_symlinks) depth p))
              ++ stack))
  unfolding pending_size
  size_step depth p stack le = omega (
    arith,
    directories_at (max_depth - depth) depth p (omega arith),
    pending_size-append
        (at_depth (suc depth)
          (own_children ((visits_at listing base max_depth max_files follow_symlinks) depth p)))
        stack,
  )

  abbrev loop : ℕ → ℕ → Pending → Option Yielded
  loop = walk listing base max_depth max_files follow_symlinks

  loop-suc :
      (fuel count depth : ℕ) (p : Location) (stack : Pending)
      → let s =
          (one_scan listing base max_depth max_files follow_symlinks) count
            ((visits_at listing base max_depth max_files follow_symlinks) depth p) in
        loop (suc fuel) count ((p, depth) ∷ stack)
        ≡ unless_raised listing base max_depth max_files follow_symlinks s.error s.files
            (loop fuel s.count (extend (reverse_onto (at_depth (suc depth) s.children) []) stack))
  unfolding walk
  loop-suc fuel count depth p stack = refl

  loop_done : (fuel count : ℕ) → loop fuel count [] ≡ some (limited max_files count (events_of []))
  unfolding walk limited pending_events
  loop_done zero count = refl
  loop_done (suc fuel) count = refl

  -- The turn of the loop, once the rest is known.
  loop_step :
      (fuel count depth : ℕ) (p : Location) (stack : Pending)
      → let s =
          (one_scan listing base max_depth max_files follow_symlinks) count
            ((visits_at listing base max_depth max_files follow_symlinks) depth p) in
        let rest =
          at_depth
            (suc depth)
            (own_children ((visits_at listing base max_depth max_files follow_symlinks) depth p))
          ++ stack in
        (loop fuel s.count rest ≡ some (limited max_files s.count (events_of rest)))
        → loop (suc fuel) count ((p, depth) ∷ stack)
          ≡ some
              ((then_limited listing base max_depth max_files follow_symlinks) s (events_of rest))
  loop_step fuel count depth p stack ih =
      rw (loop-suc fuel count depth p stack)
        (elim (Option-cases
          ((one_scan listing base max_depth max_files follow_symlinks) count
            ((visits_at listing base max_depth max_files follow_symlinks) depth p)).error) [
              | inl goes_on ↦ rw goes_on (
                  rw
                    (scan-children listing base max_depth max_files follow_symlinks count
                      ((visits_at listing base max_depth max_files follow_symlinks) depth p)
                      goes_on)
                    (rw
                      (extend-reverse_onto
                        (at_depth (suc depth) (
                          own_children
                            ((visits_at listing base max_depth max_files follow_symlinks) depth p)))
                        [] stack)
                      (rw ih refl)))
              | inr (e, raised) ↦ rw raised refl
            ])

  walk_lem :
      (fuel count : ℕ) (stack : Pending)
      → IsShallow stack
      → size_of stack ≤ fuel
      → loop fuel count stack ≡ some (limited max_files count (events_of stack))
  walk_lem fuel count [] shallow enough = loop_done fuel count
  walk_lem zero count ((p, depth) ∷ stack) (le, shallow) enough =
      absurd (omega (arith, size_step depth p stack le))
  walk_lem (suc fuel) count ((p, depth) ∷ stack) (le, shallow) enough =
      loop_step fuel count depth p stack (
        walk_lem fuel _ _ (append-IsShallow _ stack (children-IsShallow depth p le) shallow)
          (omega (arith, size_step depth p stack le)))
      ∙ ap some (sym (events_step count depth p stack le))

  root_events :
      (p : Location)
      → events_of ((p, 0) ∷ [])
        ≡ preorder listing base max_depth max_files follow_symlinks max_depth 0 p
  unfolding pending_events
  root_events p =
      let all_left : max_depth - 0 ≡ max_depth = omega arith in rw all_left (append_nil _)

  root_size :
      (p : Location)
      → size_of ((p, 0) ∷ [])
        ≡ directories listing base max_depth max_files follow_symlinks max_depth 0 p
  unfolding pending_size
  root_size p = let all_left : max_depth - 0 ≡ max_depth = omega arith in rw all_left (omega arith)

  -- The loop from the root on.
  pub walk_root :
      (fuel : ℕ)
      → directories listing base max_depth max_files follow_symlinks max_depth 0 base ≤ fuel
      → walk listing base max_depth max_files follow_symlinks fuel 0 ((base, 0) ∷ [])
        ≡ some (
            limited max_files 0
              (preorder listing base max_depth max_files follow_symlinks max_depth 0 base))
  walk_root fuel enough =
      walk_lem fuel 0 ((base, 0) ∷ []) (omega arith, tt) (omega (arith, root_size base))
      ∙ ap (λ l. some (limited max_files 0 l)) (root_events base)

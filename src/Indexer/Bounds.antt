-- ===== src/Indexer/Bounds.antt =====
-- The scan ends, within its limits, and what it lists is in the catalog.
use teldrive_lab.Prelude.{
  ℕ, zero, suc, ◌+◌, ◌-◌, ◌≤◌, String, Bool, true, false, Option, none, some, List, [], ◌∷◌,
  if◌then◌else◌, leb, length, length-append, ◌≡◌, refl, ◌∙◌, arith, inl, inr, Bool-cases,
}
use teldrive_lab.Models.{SourceType}
use teldrive_lab.Catalog.{Files}
use teldrive_lab.Indexer.{
  IndexLimits, ScanEntry, IndexState, index_entry, index_entries, read_directory, scan_loop, start,
}

if_true : {A : Type 0} {b : Bool} {x : A} (y : A) → b ≡ true → (if b then x else y) ≡ x
if_true y h = rw h refl

if_false : {A : Type 0} {b : Bool} {y : A} (x : A) → b ≡ false → (if b then x else y) ≡ y
if_false x h = rw h refl

module _ (scandir : String → Option (List ScanEntry)) (limits : IndexLimits)
    (source_type : SourceType) (identifier timestamp : String) (fresh : ℕ → ℕ) where
  -- From one state of the loop to a later one: the limit is kept, each pushed directory was indexed, each indexed path is listed.
  abbrev Later : IndexState → IndexState → Type 0
  Later s t =
      (t.indexed ≤ limits.max_entries)
      × (s.indexed ≤ t.indexed)
      × (length t.stack + s.indexed ≤ length s.stack + t.indexed)
      × (length t.seen + s.indexed ≡ length s.seen + t.indexed)

  Later-trans : (s t u : IndexState) → Later s t → Later t u → Later s u
  Later-trans s t u (a, b, c, d) (a', b', c', d') =
      (a', omega (arith, b, b'), omega (arith, c, c'), omega (arith, d, d'))

  index_entry-Later :
      (depth : ℕ) (e : ScanEntry) (s : IndexState)
      → leb limits.max_entries (s.indexed + s.skipped) ≡ false
      → Later s (index_entry scandir limits source_type identifier timestamp fresh depth e s)
  unfolding index_entry
  index_entry-Later depth e s room =
      let snoc = length-append s.seen (e.path ∷ []) in
      (ground (arith, room), ground (arith, room), ground (arith, room), ground (arith, room, snoc))

  index_entries-Later :
      (depth : ℕ) (entries : List ScanEntry) (s : IndexState)
      → s.indexed ≤ limits.max_entries
      → Later s
          (index_entries scandir limits source_type identifier timestamp fresh depth entries s)
  unfolding index_entries
  index_entries-Later depth [] s le = (le, omega arith, omega arith, refl)
  index_entries-Later depth (e ∷ entries) s le =
      elim (Bool-cases (leb limits.max_entries (s.indexed + s.skipped))) [
        | inl full ↦ rw full (le, omega arith, omega arith, refl)
        | inr room ↦
            let first = index_entry-Later depth e s room in
            rw room (
              Later-trans s
                (index_entry scandir limits source_type identifier timestamp fresh depth e s)
                (index_entries scandir limits source_type identifier timestamp fresh depth entries
                  (index_entry scandir limits source_type identifier timestamp fresh depth e s))
                first
                (index_entries-Later depth entries
                  (index_entry scandir limits source_type identifier timestamp fresh depth e s)
                  first.0))
      ]

  read_directory-Later :
      (o : Option (List ScanEntry)) (depth : ℕ) (s : IndexState)
      → s.indexed ≤ limits.max_entries
      → Later s (read_directory scandir limits source_type identifier timestamp fresh o depth s)
  read_directory-Later none depth s le = (le, omega arith, omega arith, refl)
  read_directory-Later (some entries) depth s le = index_entries-Later depth entries s le

  abbrev loop : ℕ → IndexState → List (String × ℕ) → Option IndexState
  loop = scan_loop scandir limits source_type identifier timestamp fresh

  -- The loop ends when the fuel covers the stack and the entries that may still be indexed.
  scan_loop_lem :
      (fuel : ℕ) (s : IndexState) (stack : List (String × ℕ))
      → s.indexed ≤ limits.max_entries
      → length stack + (limits.max_entries - s.indexed) ≤ fuel
      → (t : IndexState) × (loop fuel s stack ≡ some t)
        × (t.indexed ≤ limits.max_entries)
        × (length t.seen + s.indexed ≡ length s.seen + t.indexed)
  unfolding scan_loop
  scan_loop_lem zero s [] le enough = (s, refl, le, refl)
  scan_loop_lem (suc fuel) s [] le enough = (s, refl, le, refl)
  scan_loop_lem zero s (top ∷ stack) le enough = absurd (omega (arith, enough))
  scan_loop_lem (suc fuel) s ((directory, depth) ∷ stack) le enough =
      let here : IndexState = record s { stack = stack } in
      let after =
        read_directory scandir limits source_type identifier timestamp fresh (scandir directory)
          depth here in
      let (small, grows, pushes, lists) = read_directory-Later (scandir directory) depth here le in
      elim (Bool-cases after.bounded) [
        | inl full ↦ (after, if_true _ full, small, lists)
        | inr room ↦
            let (t, ends, kept, listed) =
              scan_loop_lem fuel after after.stack small
                (omega (arith, enough, small, grows, pushes)) in
            (t, if_false _ room ∙ ends, kept, omega (arith, lists, listed))
      ]

  -- A scan with room for its limit of entries and one more turn ends, however directories are nested or linked; it indexes no
  -- more entries than the limit, and lists each of them.
  pub scan_loop_ends :
      (fuel : ℕ) (root : String) (files : Files)
      → limits.max_entries + 1 ≤ fuel
      → (t : IndexState) × (loop fuel
            (start scandir limits source_type identifier timestamp fresh files)
            ((root, 0) ∷ [])
          ≡ some t)
        × (t.indexed ≤ limits.max_entries)
        × (length t.seen ≡ t.indexed)
  scan_loop_ends fuel root files enough =
      let (t, ends, small, listed) =
        scan_loop_lem fuel (start scandir limits source_type identifier timestamp fresh files)
          ((root, 0) ∷ []) (omega arith) (omega (arith, enough)) in
      (t, ends, small, omega (arith, listed))

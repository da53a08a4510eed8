-- ===== src/Resources.antt =====
-- teldrive_lab/resources.py: the bounded walk over a directory tree, as the loop over a stack that the code
-- runs. What the file system says of a directory and of its entries is an argument.
pub mod Preorder
pub mod Streams
pub mod Scans
pub mod Walk
pub mod Bounds
use teldrive_lab.Prelude.{
  ℕ, zero, suc, String, Bool, true, false, not, ◌&&◌, Option, none, some, List, [], ◌∷◌, map,
  if◌then◌else◌, ltb, eqb, text_le, ℤ, pos, negsuc,
}
use teldrive_lab.Sql.{order_by}
use teldrive_lab.Safety.Paths.{is_within}

-- The parts of a path.
abbrev pub Location : Type 0
Location = List String

-- What the calls on an entry of a directory say. `fails` stands for an OSError of one of them, and
-- `occupied` for `any(entry.iterdir())`, which is false where that call fails.
pub record DirEntry : Type 0 where
  pub name : String
  pub fails : Bool
  pub is_symlink : Bool
  pub resolved : Location
  pub is_dir : Bool
  pub is_file : Bool
  pub occupied : Bool

-- What is raised.
pub data WalkError : Type 0 where
  negative_limits : WalkError
  not_a_directory : Location → WalkError
  depth_exceeded : Location → WalkError
  files_exceeded : WalkError

-- What the loop does with one entry.
pub data Visit : Type 0 where
  skip : Visit
  descend : Location → Visit
  too_deep : Location → Visit
  file : Location → Visit

-- The files that a generator has yielded, and what ends it.
abbrev pub Yielded : Type 0
Yielded = List Location × Option WalkError

abbrev pub with_files : List Location → Yielded → Yielded
with_files [] y = y
with_files (p ∷ ps) y = let (files, e) = with_files ps y in (p ∷ files, e)

-- The loop over the entries of one directory: what it yields, its list `children`, the count after it, and
-- what it raises.
pub record Scan : Type 0 where
  pub files : List Location
  pub children : List Location
  pub count : ℕ
  pub error : Option WalkError

abbrev with_child : Location → Scan → Scan
with_child p s = record s { children = p ∷ s.children }

abbrev with_file : Location → Scan → Scan
with_file p s = record s { files = p ∷ s.files }

abbrev nothing : ℕ → Option WalkError → Scan
nothing count error = record { files = []; children = []; count = count; error = error }

-- A stack of directories with their depths; its last element in the code is the head here.
abbrev pub Pending : Type 0
Pending = List (Location × ℕ)

abbrev pub reverse_onto : List (Location × ℕ) → List (Location × ℕ) → List (Location × ℕ)
reverse_onto [] done = done
reverse_onto (p ∷ children) done = reverse_onto children (p ∷ done)

-- `stack.extend(elements)`: the elements are pushed one after the other.
abbrev pub extend : List (Location × ℕ) → Pending → Pending
extend [] stack = stack
extend (p ∷ elements) stack = extend elements (p ∷ stack)

-- The children with their depth, as the code keeps them.
abbrev pub at_depth : ℕ → List Location → List (Location × ℕ)
at_depth depth children = map (λ p. (p, depth)) children

module _ (listing : Location → Option (List DirEntry)) (base : Location) (max_depth max_files : ℕ)
    (follow_symlinks : Bool) where
  abbrev below : ℕ → DirEntry → Visit
  below depth e =
      if ltb depth max_depth
      then descend e.resolved
      else if eqb depth max_depth && e.occupied
      then too_deep e.resolved
      else skip

  unfoldable pub classify : ℕ → DirEntry → Visit
  classify depth e =
      if e.fails
      then skip
      else if e.is_symlink && not follow_symlinks
      then skip
      else if not (is_within base e.resolved)
      then skip
      else if e.is_dir
      then below depth e
      else if e.is_file
      then file e.resolved
      else skip

  abbrev pub visits_of : ℕ → Option (List DirEntry) → List Visit
  visits_of depth none = []
  visits_of depth (some entries) =
      map (classify depth) (order_by (λ a b. text_le a.name b.name) entries)

  -- The sorted entries of a directory, each with what the loop does with it; none where `iterdir` fails.
  unfoldable pub entries_of : ℕ → Location → List Visit
  entries_of depth directory = visits_of depth (listing directory)

  unfoldable pub scan : ℕ → List Visit → Scan
  scan count [] = nothing count none
  scan count (skip ∷ visits) = scan count visits
  scan count (descend p ∷ visits) = with_child p (scan count visits)
  scan count (too_deep p ∷ visits) = nothing count (some (depth_exceeded p))
  scan count (file p ∷ visits) =
      let rest = scan (suc count) visits in
      if ltb max_files (suc count)
      then nothing (suc count) (some files_exceeded)
      else with_file p rest

  abbrev after_files : List Location → Option Yielded → Option Yielded
  after_files files none = none
  after_files files (some y) = some (with_files files y)

  -- The loop goes on unless the scan of the directory raised.
  abbrev pub unless_raised : Option WalkError → List Location → Option Yielded → Option Yielded
  unless_raised (some e) files rest = some (files, some e)
  unless_raised none files rest = after_files files rest

  -- The loop over the stack; none when the fuel runs out.
  unfoldable pub walk : (fuel count : ℕ) → Pending → Option Yielded
  walk fuel count [] = some ([], none)
  walk zero count (top ∷ stack) = none
  walk (suc fuel) count ((directory, depth) ∷ stack) =
      let s = scan count (entries_of depth directory) in
      let rest =
        walk fuel s.count (extend (reverse_onto (at_depth (suc depth) s.children) []) stack) in
      unless_raised s.error s.files rest

-- `iter_files`, from the resolved root on.
unfoldable pub iter_files :
    (listing : Location → Option (List DirEntry)) (exists is_dir : Bool)
    → Location
    → (max_depth max_files : ℤ) → (follow_symlinks : Bool) → (fuel : ℕ) → Option Yielded
iter_files listing exists is_dir base (pos max_depth) (pos max_files) follow_symlinks fuel =
    if not exists
    then some ([], none)
    else if not is_dir
    then some ([], some (not_a_directory base))
    else walk listing base max_depth max_files follow_symlinks fuel 0 ((base, 0) ∷ [])
iter_files listing exists is_dir base (pos max_depth) (negsuc n) follow_symlinks fuel =
    some ([], some negative_limits)
iter_files listing exists is_dir base (negsuc n) max_files follow_symlinks fuel =
    some ([], some negative_limits)

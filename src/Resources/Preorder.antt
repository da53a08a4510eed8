-- ===== src/Resources/Preorder.antt =====
-- The walk without a stack and without a limit of files: a directory's files, then its directories in
-- their order, to the depth that is left. The limits are then read off the sequence of its events.
use teldrive_lab.Prelude.{
  ℕ, zero, suc, ◌+◌, ◌-◌, Bool, Option, none, some, List, [], ◌∷◌, ◌++◌, if◌then◌else◌, ltb,
}
use teldrive_lab.Resources.{
  Location, DirEntry, depth_exceeded, files_exceeded, Visit, skip, descend, too_deep, file, Yielded,
  Pending, entries_of,
}

pub data Event : Type 0 where
  found : Location → Event
  deep : Location → Event

unfoldable pub own_events : List Visit → List Event
own_events [] = []
own_events (skip ∷ visits) = own_events visits
own_events (descend p ∷ visits) = own_events visits
own_events (too_deep p ∷ visits) = deep p ∷ own_events visits
own_events (file p ∷ visits) = found p ∷ own_events visits

unfoldable pub own_children : List Visit → List Location
own_children [] = []
own_children (descend p ∷ visits) = p ∷ own_children visits
own_children (skip ∷ visits) = own_children visits
own_children (too_deep p ∷ visits) = own_children visits
own_children (file p ∷ visits) = own_children visits

abbrev pub all_events : (Location → List Event) → List Location → List Event
all_events f [] = []
all_events f (p ∷ ps) = f p ++ all_events f ps

abbrev pub all_sizes : (Location → ℕ) → List Location → ℕ
all_sizes f [] = 0
all_sizes f (p ∷ ps) = f p + all_sizes f ps

-- The first files up to a limit, and the error at the first event that is over a limit.
abbrev pub and_file : Location → Yielded → Yielded
and_file p (files, e) = (p ∷ files, e)

unfoldable pub limited : (max_files count : ℕ) → List Event → Yielded
limited max_files count [] = ([], none)
limited max_files count (deep p ∷ events) = ([], some (depth_exceeded p))
limited max_files count (found p ∷ events) =
    let rest = limited max_files (suc count) events in
    if ltb max_files (suc count) then ([], some files_exceeded) else and_file p rest

module _ (listing : Location → Option (List DirEntry)) (base : Location) (max_depth max_files : ℕ)
    (follow_symlinks : Bool) where
  abbrev pub visits : ℕ → Location → List Visit
  visits = entries_of listing base max_depth max_files follow_symlinks

  -- `left` more levels may be entered below the directory.
  unfoldable pub preorder : (left depth : ℕ) → Location → List Event
  preorder zero depth directory = own_events (visits depth directory)
  preorder (suc left) depth directory =
      own_events (visits depth directory)
      ++ all_events (preorder left (suc depth)) (own_children (visits depth directory))

  -- How many directories that walk reads.
  unfoldable pub directories : (left depth : ℕ) → Location → ℕ
  directories zero depth directory = 1
  directories (suc left) depth directory =
      suc (all_sizes (directories left (suc depth)) (own_children (visits depth directory)))

  unfoldable pub pending_events : Pending → List Event
  pending_events [] = []
  pending_events ((p, depth) ∷ stack) = preorder (max_depth - depth) depth p ++ pending_events stack

  unfoldable pub pending_size : Pending → ℕ
  pending_size [] = 0
  pending_size ((p, depth) ∷ stack) = directories (max_depth - depth) depth p + pending_size stack

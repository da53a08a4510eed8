-- ===== src/Witnesses/Walks.antt =====
-- The theorems on walks and streams, at a directory with one file and one directory below it.
use teldrive_lab.Prelude.{
  ℕ, ◌+◌, ◌≤◌, text_le, String, Bool, true, false, Option, none, some, List, [], ◌∷◌, ◌++◌,
  if◌then◌else◌, ◌≡◌, refl, arith, All, length, pos, suc,
}
use teldrive_lab.Exec.{Result}
use teldrive_lab.Safety.Paths.{is_within}
use teldrive_lab.Safety.Policy.{same_texts}
use teldrive_lab.Sql.{order_by, insert_sorted}
use teldrive_lab.Resources.{Location, DirEntry, WalkError, iter_files, entries_of, classify}
use teldrive_lab.Resources.Preorder.{limited, preorder, directories, own_children}
use teldrive_lab.Resources.Bounds.{iter_files-preorder, iter_files_bounds}
use teldrive_lab.Resources.Streams.{
  Hash, stream_sha256, copy_stream, stream_sha256-copy_stream, append_assoc, append_nil,
}
use teldrive_lab.Transfer.{Content}

abbrev base : Location
base = "srv" ∷ []

abbrev entry : String → Location → Bool → DirEntry
entry name resolved is_dir = record {
  name = name;
  fails = false;
  is_symlink = false;
  resolved = resolved;
  is_dir = is_dir;
  is_file = true;
  occupied = true;
}

-- `srv` holds the file `a` and the directory `d`, which holds the file `x`.
abbrev listing : Location → Option (List DirEntry)
listing p =
    if same_texts p base
    then some (entry "d" ("srv" ∷ "d" ∷ []) true ∷ entry "a" ("srv" ∷ "a" ∷ []) false ∷ [])
    else some (entry "x" ("srv" ∷ "d" ∷ "x" ∷ []) false ∷ [])

two_directories : directories listing base 3 5 false 3 0 base ≡ 2
unfolding directories own_children entries_of classify is_within same_texts order_by insert_sorted
    text_le
two_directories = refl

enough : directories listing base 3 5 false 3 0 base ≤ 4
enough = omega (arith, two_directories)

iter_files-preorder_example :
    iter_files listing true true base (pos 3) (pos 5) false 4
    ≡ some (limited 5 0 (preorder listing base 3 5 false 3 0 base))
iter_files-preorder_example = iter_files-preorder listing base 3 5 false 4 enough

iter_files_bounds_example :
    (files : List Location) × (e : Option WalkError) × (iter_files listing true true base
        (pos 3)
        (pos 5)
        false
        4
      ≡ some (files, e))
    × (length files ≤ 5)
    × All (λ p. is_within base p ≡ true) files
iter_files_bounds_example = iter_files_bounds listing base 3 5 false 4 enough

-- What the walk yields there.
both_files :
    iter_files listing true true base (pos 3) (pos 5) false 4
    ≡ some (("srv" ∷ "a" ∷ []) ∷ ("srv" ∷ "d" ∷ "x" ∷ []) ∷ [], none)
unfolding iter_files teldrive_lab.Resources.walk teldrive_lab.Resources.scan
    teldrive_lab.Resources.entries_of same_texts teldrive_lab.Sql.order_by
    teldrive_lab.Prelude.text_le teldrive_lab.Resources.classify is_within
both_files = refl

abbrev hash : Hash Content
hash = record { start = []; update = λ s a. s ++ a; hexdigest = λ s. "digest" }

stream_sha256-copy_stream_example :
    (result : Result (String × ℕ)) × (stream_sha256 hash 4 (pos 2) (1 ∷ 2 ∷ 3 ∷ []) ≡ some result)
    × (copy_stream hash 4 (pos 1) (1 ∷ 2 ∷ 3 ∷ []) [] ≡ some (result, 1 ∷ 2 ∷ 3 ∷ []))
stream_sha256-copy_stream_example =
    stream_sha256-copy_stream hash append_assoc append_nil 4 1 0 (1 ∷ 2 ∷ 3 ∷ []) [] (omega arith)

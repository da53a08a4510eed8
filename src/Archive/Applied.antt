-- ===== src/Archive/Applied.antt =====
-- What applying an archive plan does.
use teldrive_lab.Prelude.{
  true, List, [], ◌∷◌, all_by, length, ◌≡◌, refl, arith, String, inl, inr, Bool-cases,
}
use teldrive_lab.Exec.{ok, Any-cases}
use teldrive_lab.Safety.Paths.{Host}
use teldrive_lab.Transfer.{TransferResult, Disk}
use teldrive_lab.TransferExecutor.{Manager}
use teldrive_lab.Archive.{ArchiveAction, copy_item, noop, duplicate, conflict, blocked, ArchiveItem}
use teldrive_lab.Archive.Execution.{copy_count, archived, copy_one, apply_items, apply}

module _ (h : Host) (manager : Manager) (id : String) where
  -- What is shown of a plan's loop.
  abbrev IsComplete : List ArchiveItem → Type 0
  IsComplete items =
      (disk : Disk) (rs : List TransferResult)
      → (apply_items h manager id items disk).0 ≡ ok rs
      → all_by archived rs ≡ true
      → length rs ≡ copy_count items

  turn :
      (item : ArchiveItem) (items : List ArchiveItem) (disk : Disk) (rs : List TransferResult)
      → (apply_items h manager id (item ∷ items) disk).0 ≡ ok rs
      → all_by archived rs ≡ true
      → IsComplete items
      → (a : ArchiveAction) → item.action ≡ a
      → length rs ≡ copy_count (item ∷ items)
  unfolding apply_items
  turn item items disk rs e s ih noop same = ground (arith, same, e, s, ih disk rs)
  turn item items disk rs e s ih duplicate same = absurd (ground (arith, same, e))
  turn item items disk rs e s ih conflict same = absurd (ground (arith, same, e))
  turn item items disk rs e s ih blocked same = absurd (ground (arith, same, e))
  turn item items disk rs e s ih copy_item same =
      elim (Any-cases (copy_one h manager id item disk).0) [
        | inr (er, refused) ↦ absurd (ground (arith, same, refused, e))
        | inl (result, done) ↦ elim (Bool-cases (archived result)) [
          | inr bad ↦ absurd (ground (arith, same, done, bad, e, s))
          | inl good ↦
              elim (Any-cases
                (apply_items h manager id items (copy_one h manager id item disk).1).0) [
                  | inr (er, refused) ↦ absurd (ground (arith, same, done, good, refused, e))
                  | inl (rest, last) ↦ ground (
                    arith,
                    same,
                    done,
                    good,
                    last,
                    e,
                    s,
                    ih (copy_one h manager id item disk).1 rest,
                  )
                ]
        ]
      ]

  items-IsComplete : (items : List ArchiveItem) → IsComplete items
  unfolding apply_items
  items-IsComplete [] disk rs e s = ground (arith, e)
  items-IsComplete (item ∷ items) disk rs e s =
      turn item items disk rs e s (items-IsComplete items) item.action refl

  -- When applying an archive plan returns results that are all successful and verified, every COPY item of the plan
  -- has its result.
  pub archive_complete :
      (items : List ArchiveItem) (disk : Disk) (rs : List TransferResult)
      → (apply h manager id items disk).0 ≡ ok rs
      → all_by archived rs ≡ true
      → length rs ≡ copy_count items
  unfolding apply
  archive_complete items disk rs e s = ground (arith, items-IsComplete items disk rs, e, s)

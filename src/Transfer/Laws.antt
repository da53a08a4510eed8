-- ===== src/Transfer/Laws.antt =====
-- What a transfer leaves on the disk.
use teldrive_lab.Prelude.{
  String, Bool, true, false, not, ◌&&◌, ◌||◌, Option, none, some, [], ◌∷◌, ◌≡◌, arith, ◌==◌, inl,
  inr, ◌⊎◌, if◌then◌else◌, Bool-cases, eq_iff, eq_refl, is_some,
}
use teldrive_lab.Safety.{AuthorizationReceipt, is_mutating}
use teldrive_lab.Safety.Paths.{Host}
use teldrive_lab.Safety.Policy.{authorize}
use teldrive_lab.Transfer.{
  TransferSpec, Content, Disk, content_at, remove, write, Copying, joined, clean_up, copy_file,
  transfer, plan, operation_of,
}

content_at-remove :
    (p q : String) (disk : Disk)
    → content_at p (remove q disk) ≡ (if q == p then none else content_at p disk)
unfolding content_at remove
content_at-remove p q [] = ground arith
content_at-remove p q ((x, c) ∷ disk) =
    ground (arith, eq_iff q p, eq_iff x q, eq_iff x p, eq_refl q, content_at-remove p q disk)

content_at-write :
    (p q : String) (c : Content) (disk : Disk)
    → content_at p (write q c disk) ≡ (if q == p then some c else content_at p disk)
unfolding content_at
content_at-write p q c disk = ground (arith, content_at-remove p q disk)

not_same : (s t : String) → (s == t) ≡ false → (t == s) ≡ false
not_same s t h = ground (arith, eq_iff s t, eq_iff t s, eq_refl s)

-- A file that is neither the temporary one nor, after a success, the destination.
module _ (sha256 : Content → String) where
  copy_leaves :
      (spec : TransferSpec) (os : Copying) (disk : Disk) (p : String)
      → (os.temporary == p) ≡ false
      → (spec.destination == p) ≡ false
      → content_at p (copy_file sha256 spec os disk).1 ≡ content_at p disk
  unfolding copy_file clean_up
  copy_leaves spec os disk p other far = grind (arith, content_at-write, content_at-remove)

  copy_failed :
      (spec : TransferSpec) (os : Copying) (disk : Disk) (p : String)
      → (copy_file sha256 spec os disk).0.success ≡ false
      → (os.temporary == p) ≡ false
      → content_at p (copy_file sha256 spec os disk).1 ≡ content_at p disk
  unfolding copy_file clean_up
  copy_failed spec os disk p failed other = grind (arith, content_at-write, content_at-remove)

  copy_succeeded :
      (spec : TransferSpec) (os : Copying) (disk : Disk)
      → (copy_file sha256 spec os disk).0.success ≡ true
      → (os.temporary == spec.destination) ≡ false
      → (content_at spec.destination (copy_file sha256 spec os disk).1 ≡ some (joined os.chunks))
        × (sha256 os.read_back ≡ sha256 os.hashed)
        × (content_at os.temporary (copy_file sha256 spec os disk).1 ≡ none)
  unfolding copy_file clean_up
  copy_succeeded spec os disk done apart =
      let same = eq_iff (sha256 os.hashed) (sha256 os.read_back) in
      let self = eq_refl spec.destination in
      let temporary = eq_refl os.temporary in
      let flipped = not_same os.temporary spec.destination apart in
      (
        grind (arith, content_at-write, content_at-remove),
        grind (arith, content_at-write, content_at-remove),
        grind (arith, content_at-write, content_at-remove),
      )

  -- Unless the copy of the file succeeds, no file but the temporary one has changed: the
  -- destination is as it was, whatever the failure and wherever it struck. If it succeeds, the
  -- destination holds the bytes that were written, whose sum as read back is that of the source,
  -- the temporary file is gone, and no other file has changed.
  pub copy_file_lem :
      (spec : TransferSpec) (os : Copying) (disk : Disk)
      → (os.temporary == spec.destination) ≡ false
      → let (result, after) = copy_file sha256 spec os disk in
        ((result.success ≡ false)
          × ((p : String) → (os.temporary == p) ≡ false → content_at p after ≡ content_at p disk))
        ⊎ ((result.success ≡ true)
            × (content_at spec.destination after ≡ some (joined os.chunks))
            × (sha256 os.read_back ≡ sha256 os.hashed)
            × (content_at os.temporary after ≡ none)
            × ((p : String)
                → (os.temporary == p) ≡ false
                → (spec.destination == p) ≡ false
                → content_at p after ≡ content_at p disk))
  copy_file_lem spec os disk apart = elim (Bool-cases (copy_file sha256 spec os disk).0.success) [
    | inl done ↦
        let (here, summed, gone) = copy_succeeded spec os disk done apart in
        inr (done, here, summed, gone, copy_leaves spec os disk)
    | inr failed ↦ inl (failed, λ p other. copy_failed spec os disk p failed other)
  ]

  success_checks :
      (h : Host) (is_folder : String → Bool) (spec : TransferSpec) (explicit : Bool)
      (receipt : Option AuthorizationReceipt) (os : Copying) (disk : Disk)
      → (transfer sha256 h is_folder spec explicit receipt os disk).0.success ≡ true
      → ((authorize h
            (operation_of spec)
            (spec.source ∷ spec.destination ∷ [])
            explicit
            receipt).allowed
          ≡ true)
        × (is_some (content_at spec.source disk) ≡ true)
        × ((is_some (content_at spec.destination disk) || is_folder spec.destination)
              && not spec.overwrite
            ≡ false)
        × ((transfer sha256 h is_folder spec explicit receipt os disk).0.verified ≡ true)
        × (sha256 os.read_back ≡ sha256 os.hashed)
  unfolding transfer copy_file
  success_checks h is_folder spec explicit receipt os disk done =
      let same = eq_iff (sha256 os.hashed) (sha256 os.read_back) in
      (ground arith, ground arith, ground arith, ground arith, ground arith)

  failure_leaves :
      (h : Host) (is_folder : String → Bool) (spec : TransferSpec) (explicit : Bool)
      (receipt : Option AuthorizationReceipt) (os : Copying) (disk : Disk) (p : String)
      → (transfer sha256 h is_folder spec explicit receipt os disk).0.success ≡ false
      → (os.temporary == p) ≡ false
      → content_at p (transfer sha256 h is_folder spec explicit receipt os disk).1
        ≡ content_at p disk
  unfolding transfer
  failure_leaves h is_folder spec explicit receipt os disk p failed other =
      ground (arith, copy_failed spec os disk p)

  -- A transfer that reports success was allowed by the safety boundary, had a regular file as its
  -- source and either overwrote or found nothing at its destination, and has verified sums; any
  -- other transfer has left every file as it was, but for the temporary one.
  pub transfer_lem :
      (h : Host) (is_folder : String → Bool) (spec : TransferSpec) (explicit : Bool)
      (receipt : Option AuthorizationReceipt) (os : Copying) (disk : Disk)
      → let (result, after) = transfer sha256 h is_folder spec explicit receipt os disk in
        ((result.success ≡ false)
          × ((p : String) → (os.temporary == p) ≡ false → content_at p after ≡ content_at p disk))
        ⊎ (((authorize h
                (operation_of spec)
                (spec.source ∷ spec.destination ∷ [])
                explicit
                receipt).allowed
              ≡ true)
            × (is_some (content_at spec.source disk) ≡ true)
            × ((is_some (content_at spec.destination disk) || is_folder spec.destination)
                  && not spec.overwrite
                ≡ false)
            × (result.verified ≡ true)
            × (sha256 os.read_back ≡ sha256 os.hashed))
  transfer_lem h is_folder spec explicit receipt os disk =
      elim (Bool-cases (transfer sha256 h is_folder spec explicit receipt os disk).0.success) [
        | inl done ↦ inr (success_checks h is_folder spec explicit receipt os disk done)
        | inr failed ↦ inl (
          failed,
          λ p other. failure_leaves h is_folder spec explicit receipt os disk p failed other,
        )
      ]

-- A plan never says that its transfer is allowed: authorization is given at the transfer.
pub plan_not_allowed :
    (h : Host) (is_folder : String → Bool) (spec : TransferSpec) (disk : Disk)
    → (plan h is_folder spec disk).allowed ≡ false
unfolding plan authorize is_mutating
plan_not_allowed h is_folder spec disk = ground arith

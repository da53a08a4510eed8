-- ===== src/Witnesses/Transfers.antt =====
-- The theorems on the limiter and the transfers, at concrete inputs.
use teldrive_lab.Prelude.{
  String, Bool, true, false, not, ◌&&◌, ◌||◌, none, some, [], ◌∷◌, ◌≡◌, refl, ◌⊎◌, pos, is_some,
  ◌==◌,
}
use teldrive_lab.Exec.{ok}
use teldrive_lab.Concurrency.{TransferLimits, Thread, System, take_worker, check_size, add_bytes}
use teldrive_lab.Concurrency.Steps.{start, Step, Reachable, Run}
use teldrive_lab.Concurrency.Laws.{IsBalanced, Reachable-IsBalanced}
use teldrive_lab.Concurrency.Progress.{Reachable-drains}
use teldrive_lab.Safety.Policy.{authorize}
use teldrive_lab.Jobs.{Job}
use teldrive_lab.Jobs.Store.{to_job}
use teldrive_lab.Retry.{default_policy}
use teldrive_lab.Transfer.{
  TransferKind, TransferSpec, Content, Disk, content_at, Copying, copy_file, transfer, operation_of,
}
use teldrive_lab.Transfer.Laws.{transfer_lem}
use teldrive_lab.TransferExecutor.{Manager, succeeded, execute}
use teldrive_lab.Witnesses.Sample.{running_a}
use teldrive_lab.Witnesses.Boundary.{host}

-- One thread transfers all the bytes there are; a second one sleeps.
abbrev narrow : TransferLimits
narrow = record { max_workers = 2; max_inflight_bytes = 100 }

abbrev crowded : System
crowded = record {
  limiter = record { workers = 0; inflight = 100 };
  threads = Thread.sleeps 100 ∷ Thread.transfers 100 ∷ [];
}

crowded_reached : Reachable narrow crowded
unfolding take_worker check_size add_bytes
crowded_reached =
    Reachable.next
      (Reachable.next
        (Reachable.next
          (Reachable.next Reachable.begins (
            Step.enter [] (pos 100) 100 (start narrow).limiter
              (record { workers = 1; inflight = 0 }) refl refl))
          (Step.admit [] [] 100 (record { workers = 1; inflight = 0 })
            (record { workers = 1; inflight = 100 }) refl))
        (Step.enter (Thread.transfers 100 ∷ []) (pos 100) 100
          (record { workers = 1; inflight = 100 }) (record { workers = 0; inflight = 100 }) refl
          refl))
      (Step.sleep [] (Thread.transfers 100 ∷ []) 100 (record { workers = 0; inflight = 100 }) refl)

Reachable-IsBalanced_example : IsBalanced narrow crowded
Reachable-IsBalanced_example = Reachable-IsBalanced narrow crowded_reached

Reachable-drains_example : Run narrow crowded (start narrow)
Reachable-drains_example = Reachable-drains narrow crowded_reached

-- A sum that tells the contents below apart.
abbrev pub sum_text : Content → String
sum_text [] = "0"
sum_text (b ∷ bs) = "1"

abbrev spec : TransferSpec
spec = record {
  source = "/srv/in";
  destination = "/srv/out";
  kind = TransferKind.copy;
  overwrite = false;
}

abbrev copying : Copying
copying = record {
  temporary = "/srv/t";
  hashed = 1 ∷ 2 ∷ [];
  chunks = (1 ∷ []) ∷ (2 ∷ []) ∷ [];
  read_back = 1 ∷ 2 ∷ [];
  fault = none;
  unlink_fails = false;
}

abbrev pub disk : Disk
disk = ("/srv/in", 1 ∷ 2 ∷ []) ∷ []

abbrev pub no_folder : String → Bool
no_folder p = false

copied :
    content_at "/srv/out" (transfer sum_text host no_folder spec true none copying disk).1
    ≡ some (1 ∷ 2 ∷ [])
unfolding content_at transfer authorize teldrive_lab.Safety.is_mutating
    teldrive_lab.Safety.Policy.protected_paths teldrive_lab.Safety.Paths.is_protected
    teldrive_lab.Safety.Paths.protected_roots teldrive_lab.Safety.Paths.is_within
    teldrive_lab.Safety.Paths.resolve_path teldrive_lab.Safety.Paths.resolve
    teldrive_lab.Safety.Paths.protected_state copy_file
copied = refl

transfer_lem_example :
    ((transfer sum_text host no_folder spec true none copying disk).0.success ≡ false)
      × ((p : String)
          → ("/srv/t" == p) ≡ false
          → content_at p (transfer sum_text host no_folder spec true none copying disk).1
            ≡ content_at p disk)
    ⊎ ((authorize host (operation_of spec) ("/srv/in" ∷ "/srv/out" ∷ []) true none).allowed ≡ true)
      × (is_some (content_at "/srv/in" disk) ≡ true)
      × ((is_some (content_at "/srv/out" disk) || no_folder "/srv/out") && not false ≡ false)
      × ((transfer sum_text host no_folder spec true none copying disk).0.verified ≡ true)
      × (sum_text copying.read_back ≡ sum_text copying.hashed)
transfer_lem_example = transfer_lem sum_text host no_folder spec true none copying disk

abbrev pub manager : Manager
manager s r d = transfer sum_text host no_folder s true r copying d

abbrev job : Job
job = to_job running_a

abbrev after : Disk
after = (manager spec none disk).1

executed : execute default_policy manager job none disk ≡ (ok succeeded, after)
unfolding execute to_job transfer authorize teldrive_lab.Safety.is_mutating
    teldrive_lab.Safety.Policy.protected_paths teldrive_lab.Safety.Paths.is_protected
    teldrive_lab.Safety.Paths.protected_roots teldrive_lab.Safety.Paths.is_within
    teldrive_lab.Safety.Paths.resolve_path teldrive_lab.Safety.Paths.resolve
    teldrive_lab.Safety.Paths.protected_state content_at copy_file
executed = refl

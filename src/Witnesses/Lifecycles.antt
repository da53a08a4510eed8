-- ===== src/Witnesses/Lifecycles.antt =====
-- The theorems on the lifecycle of files and on backups, at concrete inputs.
use teldrive_lab.Prelude.{
  true, false, none, some, [], ◌∷◌, ◌≡◌, ◌↔◌, refl, inl, All, length, any_by, if◌then◌else◌,
}
use teldrive_lab.Exec.{ok}
use teldrive_lab.Safety.Paths.{is_protected}
use teldrive_lab.Transfer.{Content, Disk, content_at}
use teldrive_lab.Lifecycle.{
  LifecycleRecord, LifecyclePlanItem, purge_ready, quarantined, default_retention,
}
use teldrive_lab.Lifecycle.Store.{put, get}
use teldrive_lab.Lifecycle.Plans.{quarantine_plan, purge_plan, reconcile_record}
use teldrive_lab.Lifecycle.Execution.{LifecycleState, LifecycleSession}
use teldrive_lab.Lifecycle.Execution
use teldrive_lab.Lifecycle.StoreLaws.{get-put}
use teldrive_lab.Lifecycle.PlanLaws.{IsSafe, quarantine_plan-IsSafe, reconcile_record_iff}
use teldrive_lab.Lifecycle.PurgeLaws.{names, purge_keeps, purge-purge_plan}
use teldrive_lab.Witnesses.Boundary.{host}
use teldrive_lab.Witnesses.Transfers.{manager, no_folder, sum_text}

abbrev kept : LifecycleRecord
kept = record {
  source = "/srv/in";
  quarantine = "/q/in";
  size = 1;
  sha256 = "1";
  quarantined_at = 0;
  purge_after = 10;
  locked = true;
}

abbrev files : Disk
files = ("/srv/in", 7 ∷ []) ∷ ("/q/in", 7 ∷ []) ∷ []

abbrev session : LifecycleSession
session = record { now = λ n. n; stamp = λ n. record { event_id = "e"; timestamp = n } }

abbrev state : LifecycleState
state = record { disk = files; records = kept ∷ []; events = [] }

get-put_example : ((put kept []).0 ≡ ok tt) × (get "/srv/in" (put kept []).1 ≡ some kept)
get-put_example = get-put kept "/srv/in" []

quarantine_plan-IsSafe_example :
    All
      (λ item.
        item.action ≡ quarantined → IsSafe sum_text host no_folder files default_retention 5 item)
      (quarantine_plan sum_text host no_folder files default_retention 5 "/vault2" ("/srv/in" ∷ []))
quarantine_plan-IsSafe_example =
    quarantine_plan-IsSafe sum_text host no_folder files default_retention 5 "/vault2"
      ("/srv/in" ∷ [])

reconcile_record_iff_example :
    ((reconcile_record sum_text host no_folder files kept).state ≡ "LOCKED_VERIFIED")
    ↔ ((c : Content) × (content_at "/q/in" files ≡ some c) × (length c ≡ 1) × (sum_text c ≡ "1"))
reconcile_record_iff_example = reconcile_record_iff sum_text host no_folder files kept

abbrev ready : LifecyclePlanItem
ready = record {
  source = "/srv/in";
  quarantine = "/q/in";
  action = purge_ready;
  reason = "";
  size = 1;
  sha256 = some "1";
  purge_after = some 10;
  destination = none;
}

source_not_named :
    (if is_protected host "/srv/in"
      then false
      else any_by (names host manager "id" session "/srv/in") (ready ∷ []))
    ≡ false
unfolding is_protected teldrive_lab.Safety.Paths.protected_roots teldrive_lab.Safety.Paths.is_within
    teldrive_lab.Safety.Paths.resolve_path teldrive_lab.Safety.Paths.resolve
    teldrive_lab.Safety.Paths.protected_state teldrive_lab.Files.real_text
    teldrive_lab.Safety.Policy.path_text teldrive_lab.Text.append teldrive_lab.Text.join
source_not_named = refl

purge_keeps_example :
    content_at "/srv/in"
      (teldrive_lab.Lifecycle.Execution.purge host manager "id" session (ready ∷ []) state).1.disk
    ≡ content_at "/srv/in" files
purge_keeps_example =
    purge_keeps host manager "id" session "/srv/in" (ready ∷ []) state source_not_named

purge-purge_plan_example :
    content_at "/q/in"
      (teldrive_lab.Lifecycle.Execution.purge host manager "id" session
        (purge_plan sum_text host no_folder files 100 (kept ∷ []))
        state).1.disk
    ≡ content_at "/q/in" files
purge-purge_plan_example =
    purge-purge_plan sum_text host no_folder files 100 manager "id" session "/q/in" (kept ∷ [])
      state ((λ same. inl refl), tt)

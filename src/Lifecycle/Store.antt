-- ===== src/Lifecycle/Store.antt =====
-- `LifecycleStore`: a table with `source` as its key and a UNIQUE column `quarantine`.
use teldrive_lab.Prelude.{
  String, Bool, true, not, ◌&&◌, Option, none, some, List, [], ◌∷◌, if◌then◌else◌, ◌==◌, any_by,
  text_le,
}
use teldrive_lab.Exec.{Action, ok, err, pure, integrity_error, value_error, ◌>>◌}
use teldrive_lab.Sql.{update_where, select_one, order_by}
use teldrive_lab.Sql.Upsert.{upsert}
use teldrive_lab.Safety.Paths.{Host}
use teldrive_lab.Files.{real_text}
use teldrive_lab.Lifecycle.{LifecycleRecord}

abbrev pub Records : Type 0
Records = List LifecycleRecord

abbrev pub has_source : String → LifecycleRecord → Bool
has_source source r = r.source == source

-- Another row holds the quarantine path.
abbrev pub clashes : LifecycleRecord → LifecycleRecord → Bool
clashes new r = not (r.source == new.source) && r.quarantine == new.quarantine

unfoldable pub put : LifecycleRecord → Action Records (Unit {0})
put new records =
    if any_by (clashes new) records
    then (err integrity_error, records)
    else (ok tt, upsert (λ r. r.source) new records)

unfoldable pub get : String → Records → Option LifecycleRecord
get source records = select_one (has_source source) records

abbrev pub by_source : LifecycleRecord → LifecycleRecord → Bool
by_source a b = text_le a.source b.source

unfoldable pub all : Records → List LifecycleRecord
all records = order_by by_source records

unfoldable pub set_locked : String → Bool → Records → Records
set_locked source locked records =
    update_where (has_source source) (λ r. record r { locked = locked }) records

abbrev lock_found : String → Option LifecycleRecord → Action Records (Unit {0})
lock_found source none records = (err (value_error source), records)
lock_found source (some r) records = (ok tt, set_locked r.source true records)

-- `lock_records`; the error's text is the source that has no record.
unfoldable pub lock_records : Host → List String → Action Records (Unit {0})
lock_records h [] = pure tt
lock_records h (source ∷ sources) =
    (λ records. lock_found source (get (real_text h source) records) records)
    >> lock_records h sources

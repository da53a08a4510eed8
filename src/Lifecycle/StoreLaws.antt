-- ===== src/Lifecycle/StoreLaws.antt =====
-- What the lifecycle store finds after a `put`, and after locks are set.
use teldrive_lab.Prelude.{
  String, Bool, Option, none, some, [], ◌∷◌, if◌then◌else◌, ◌==◌, any_by, ◌≡◌, arith, eq_iff,
}
use teldrive_lab.Exec.{ok, err, integrity_error}
use teldrive_lab.Sql.{update_where, select_one}
use teldrive_lab.Sql.Upsert.{select_one-upsert}
use teldrive_lab.Lifecycle.{LifecycleRecord}
use teldrive_lab.Lifecycle.Store.{Records, clashes, put, get, set_locked}

-- After a `put` that returns, a `get` of the record's source finds the record, and a `get` of another
-- source finds what it found before. A `put` that raises leaves the table as it is: every `get`
-- finds what it found before. It raises exactly when another source holds the quarantine path.
pub get-put :
    (new : LifecycleRecord) (source : String) (records : Records)
    → ((put new records).0 ≡ (if any_by (clashes new) records then err integrity_error else ok tt))
      × (get source (put new records).1 ≡ (
          if any_by (clashes new) records
          then get source records
          else if new.source == source
          then some new
          else get source records))
unfolding put get
get-put new source records =
    (ground arith, ground (arith, select_one-upsert (λ r. r.source) new source records))

abbrev pub map_locked : Bool → Option LifecycleRecord → Option LifecycleRecord
map_locked b none = none
map_locked b (some r) = some (record r { locked = b })

-- Setting a lock changes the lock of the record of that source and of no other.
pub get-set_locked :
    (source k : String) (b : Bool) (records : Records)
    → get k (set_locked source b records)
      ≡ (if source == k then map_locked b (get k records) else get k records)
unfolding get set_locked update_where select_one
get-set_locked source k b [] = ground arith
get-set_locked source k b (r ∷ records) = ground (
  arith,
  get-set_locked source k b records,
  eq_iff r.source source,
  eq_iff r.source k,
  eq_iff source k,
)

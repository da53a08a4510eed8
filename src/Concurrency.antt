-- ===== src/Concurrency.antt =====
-- teldrive_lab/concurrency.py: the admission control of transfers. Its state is the counter of the
-- bounded semaphore, the bytes in flight, and the threads that have a worker, with those among
-- them that sleep on the condition. One step is what a thread does at once: on the semaphore, or
-- while it holds the condition's lock.
pub mod Steps
pub mod Laws
pub mod Progress
use teldrive_lab.Prelude.{
  ℕ, zero, suc, ◌+◌, ◌-◌, ◌*◌, Bool, true, false, Option, none, some, if◌then◌else◌, ltb, leb, eqb,
  ℤ, pos, negsuc, positive, List, [], ◌∷◌, map,
}
use teldrive_lab.Exec.{Action, Result, ok, err, value_error}

pub record TransferLimits : Type 0 where
  pub max_workers : ℕ
  pub max_inflight_bytes : ℕ

abbrev pub default_limits : TransferLimits
default_limits = record { max_workers = 2; max_inflight_bytes = 256 * 1024 * 1024 }

abbrev check_limits : Option ℕ → Option ℕ → Result TransferLimits
check_limits none bytes = err (value_error "max_workers must be >= 1")
check_limits (some n) none = err (value_error "max_inflight_bytes must be >= 1")
check_limits (some n) (some b) = ok (record { max_workers = n; max_inflight_bytes = b })

-- The constructor with `__post_init__`.
unfoldable pub limits : (max_workers max_inflight_bytes : ℤ) → Result TransferLimits
limits max_workers max_inflight_bytes =
    check_limits (positive max_workers) (positive max_inflight_bytes)

-- `_workers` is what is left of the semaphore.
pub record Limiter : Type 0 where
  pub workers : ℕ
  pub inflight : ℕ

abbrev pub limiter : TransferLimits → Limiter
limiter l = record { workers = l.max_workers; inflight = 0 }

-- The tests of `acquire` before it waits: the size of the request.
unfoldable pub check_size : TransferLimits → ℤ → Result ℕ
check_size l (negsuc n) = err (value_error "size must be non-negative")
check_size l (pos size) =
    if ltb l.max_inflight_bytes size
    then err (value_error "transfer exceeds max_inflight_bytes")
    else ok size

-- `self._workers.acquire()`; nothing while it waits.
unfoldable pub take_worker : Limiter → Option Limiter
take_worker s = if eqb s.workers 0 then none else some (record s { workers = s.workers - 1 })

-- One turn of the loop on the condition: the addition, or nothing where it waits.
unfoldable pub add_bytes : TransferLimits → ℕ → Limiter → Option Limiter
add_bytes l size s =
    if ltb l.max_inflight_bytes (s.inflight + size)
    then none
    else some (record s { inflight = s.inflight + size })

-- Where a thread stands that has a worker: it is about to test for room for its bytes, it sleeps in
-- `self._condition.wait()`, it transfers, or it has given the bytes back.
pub data Thread : Type 0 where
  waits sleeps transfers leaves : ℕ → Thread

pub record System : Type 0 where
  pub limiter : Limiter
  pub threads : List Thread

abbrev pub wake : Thread → Thread
wake (Thread.sleeps size) = Thread.waits size
wake t = t

-- `self._condition.notify_all()`: each sleeper tests again.
unfoldable pub notify_all : List Thread → List Thread
notify_all ts = map wake ts

-- The block of `release` under the condition's lock.
unfoldable pub drop_bytes : ℕ → System → System
drop_bytes size s = record {
  limiter = record s.limiter { inflight = s.limiter.inflight - size };
  threads = notify_all s.threads;
}

-- `self._workers.release()`: a bounded semaphore raises when its counter is at its start.
unfoldable pub give_worker : TransferLimits → Limiter → Result Limiter
give_worker l s =
    if ltb s.workers l.max_workers
    then ok (record s { workers = s.workers + 1 })
    else err (value_error "Semaphore released too many times")

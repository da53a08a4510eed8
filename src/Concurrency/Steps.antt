-- ===== src/Concurrency/Steps.antt =====
-- The threads of a limiter. Each runs `acquire(size)`, then its transfer, then `release(size)` with
-- the same size, as `TransferManager.transfer` does; the steps of the threads interleave freely.
use teldrive_lab.Prelude.{ℕ, ◌≡◌, List, [], ◌∷◌, ◌++◌, none, some, ℤ}
use teldrive_lab.Exec.{ok}
use teldrive_lab.Concurrency.{
  TransferLimits, Limiter, limiter, Thread, System, check_size, take_worker, add_bytes, drop_bytes,
  give_worker,
}

abbrev pub start : TransferLimits → System
start l = record { limiter = limiter l; threads = [] }

-- One step of one thread; the other threads stand before and after it. A sleeper takes no step: it
-- is another thread's `drop` that wakes it.
pub data Step (l : TransferLimits) : System → System → Type 0 where
  enter :
      (ts : List Thread) (request : ℤ) (size : ℕ) (s s' : Limiter)
      → check_size l request ≡ ok size
      → take_worker s ≡ some s'
      → Step l
          (record { limiter = s; threads = ts })
          (record { limiter = s'; threads = Thread.waits size ∷ ts })
  admit :
      (before after : List Thread) (size : ℕ) (s s' : Limiter)
      → add_bytes l size s ≡ some s'
      → Step l
          (record { limiter = s; threads = before ++ Thread.waits size ∷ after })
          (record { limiter = s'; threads = before ++ Thread.transfers size ∷ after })
  sleep :
      (before after : List Thread) (size : ℕ) (s : Limiter)
      → add_bytes l size s ≡ none
      → Step l
          (record { limiter = s; threads = before ++ Thread.waits size ∷ after })
          (record { limiter = s; threads = before ++ Thread.sleeps size ∷ after })
  drop :
      (before after : List Thread) (size : ℕ) (s : Limiter)
      → Step l
          (record { limiter = s; threads = before ++ Thread.transfers size ∷ after })
          (drop_bytes size (record { limiter = s; threads = before ++ Thread.leaves size ∷ after }))
  leave :
      (before after : List Thread) (size : ℕ) (s s' : Limiter)
      → give_worker l s ≡ ok s'
      → Step l
          (record { limiter = s; threads = before ++ Thread.leaves size ∷ after })
          (record { limiter = s'; threads = before ++ after })

-- The systems that a limiter gets to.
pub data Reachable (l : TransferLimits) : System → Type 0 where
  begins : Reachable l (start l)
  next : {s s' : System} → Reachable l s → Step l s s' → Reachable l s'

-- Any number of steps.
pub data Run (l : TransferLimits) : System → System → Type 0 where
  stays : {s : System} → Run l s s
  goes : {s s' s'' : System} → Step l s s' → Run l s' s'' → Run l s s''

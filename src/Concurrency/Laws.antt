-- ===== src/Concurrency/Laws.antt =====
-- What the limiter promises under every interleaving.
use teldrive_lab.Prelude.{
  ℕ, suc, ◌+◌, ◌≤◌, ◌≡◌, refl, arith, List, [], ◌∷◌, ◌++◌, length, ℤ, pos, negsuc, All,
}
use teldrive_lab.Exec.{ok}
use teldrive_lab.Concurrency.{
  TransferLimits, check_size, take_worker, add_bytes, drop_bytes, give_worker, Thread, System,
  notify_all,
}
use teldrive_lab.Concurrency.Steps.{Step, Reachable}

-- The bytes of the threads that transfer.
abbrev pub bytes_of : Thread → ℕ
bytes_of (Thread.waits size) = 0
bytes_of (Thread.sleeps size) = 0
bytes_of (Thread.transfers size) = size
bytes_of (Thread.leaves size) = 0

abbrev pub held_bytes : List Thread → ℕ
held_bytes [] = 0
held_bytes (t ∷ ts) = bytes_of t + held_bytes ts

abbrev size_of : Thread → ℕ
size_of (Thread.waits size) = size
size_of (Thread.sleeps size) = size
size_of (Thread.transfers size) = size
size_of (Thread.leaves size) = size

-- Every request fits by itself.
abbrev Small : TransferLimits → Thread → Type 0
Small l t = size_of t ≤ l.max_inflight_bytes

abbrev Fits : TransferLimits → List Thread → Type 0
Fits l ts = All (Small l) ts

-- The counters are those of the threads, and stand within the limits.
pub record IsBalanced (l : TransferLimits) (s : System) : Type 0 where
  pub workers : s.limiter.workers + length s.threads ≡ l.max_workers
  pub inflight : s.limiter.inflight ≡ held_bytes s.threads
  pub bounded : s.limiter.inflight ≤ l.max_inflight_bytes
  pub fitting : Fits l s.threads

-- The sums over the threads, with one thread taken out.
pub length-middle :
    (ts us : List Thread) (t : Thread) → length (ts ++ t ∷ us) ≡ suc (length (ts ++ us))
length-middle [] us t = refl
length-middle (u ∷ ts) us t = omega (arith, length-middle ts us t)

held_bytes-middle :
    (ts us : List Thread) (t : Thread)
    → held_bytes (ts ++ t ∷ us) ≡ bytes_of t + held_bytes (ts ++ us)
held_bytes-middle [] us t = refl
held_bytes-middle (u ∷ ts) us t = omega (arith, held_bytes-middle ts us t)

pub All-replace :
    {A : Type 0} (P : A → Type 0) (ts us : List A) (t u : A)
    → (P t → P u)
    → All P (ts ++ t ∷ us)
    → All P (ts ++ u ∷ us)
All-replace P [] us t u f (h, hs) = (f h, hs)
All-replace P (x ∷ ts) us t u f (h, hs) = (h, All-replace P ts us t u f hs)

pub All-remove :
    {A : Type 0} (P : A → Type 0) (ts us : List A) (t : A) → All P (ts ++ t ∷ us) → All P (ts ++ us)
All-remove P [] us t (h, hs) = hs
All-remove P (x ∷ ts) us t (h, hs) = (h, All-remove P ts us t hs)

-- Who is woken keeps its place, its worker and its size.
length-notify_all : (ts : List Thread) → length (notify_all ts) ≡ length ts
unfolding notify_all
length-notify_all [] = refl
length-notify_all (t ∷ ts) = omega (arith, length-notify_all ts)

held_bytes-notify_all : (ts : List Thread) → held_bytes (notify_all ts) ≡ held_bytes ts
unfolding notify_all
held_bytes-notify_all [] = refl
held_bytes-notify_all (Thread.waits size ∷ ts) = omega (arith, held_bytes-notify_all ts)
held_bytes-notify_all (Thread.sleeps size ∷ ts) = omega (arith, held_bytes-notify_all ts)
held_bytes-notify_all (Thread.transfers size ∷ ts) = omega (arith, held_bytes-notify_all ts)
held_bytes-notify_all (Thread.leaves size ∷ ts) = omega (arith, held_bytes-notify_all ts)

notify_all-Fits : (l : TransferLimits) (ts : List Thread) → Fits l ts → Fits l (notify_all ts)
unfolding notify_all
notify_all-Fits l [] h = tt
notify_all-Fits l (Thread.waits size ∷ ts) (h, hs) = (h, notify_all-Fits l ts hs)
notify_all-Fits l (Thread.sleeps size ∷ ts) (h, hs) = (h, notify_all-Fits l ts hs)
notify_all-Fits l (Thread.transfers size ∷ ts) (h, hs) = (h, notify_all-Fits l ts hs)
notify_all-Fits l (Thread.leaves size ∷ ts) (h, hs) = (h, notify_all-Fits l ts hs)

check_size_lem :
    (l : TransferLimits) (request : ℤ) (size : ℕ)
    → check_size l request ≡ ok size
    → size ≤ l.max_inflight_bytes
unfolding check_size
check_size_lem l (pos n) size h = ground arith
check_size_lem l (negsuc n) size h = ground arith

module _ (l : TransferLimits) where
  pub Step-IsBalanced : {s s' : System} → Step l s s' → IsBalanced l s → IsBalanced l s'
  unfolding check_size take_worker add_bytes drop_bytes give_worker
  Step-IsBalanced (Step.enter ts request size s s' fits taken) h = record {
    workers = ground arith;
    inflight = ground arith;
    bounded = ground arith;
    fitting = (check_size_lem l request size fits, h.fitting);
  }
  Step-IsBalanced (Step.admit before after size s s' added) h =
      let a = length-middle before after (Thread.waits size) in
      let b = length-middle before after (Thread.transfers size) in
      let c = held_bytes-middle before after (Thread.waits size) in
      let d = held_bytes-middle before after (Thread.transfers size) in
      record {
        workers = ground arith;
        inflight = ground arith;
        bounded = ground arith;
        fitting =
            All-replace (Small l) before after (Thread.waits size) (Thread.transfers size) (λ w. w)
              h.fitting;
      }
  Step-IsBalanced (Step.sleep before after size s full) h =
      let a = length-middle before after (Thread.waits size) in
      let b = length-middle before after (Thread.sleeps size) in
      let c = held_bytes-middle before after (Thread.waits size) in
      let d = held_bytes-middle before after (Thread.sleeps size) in
      record {
        workers = ground arith;
        inflight = ground arith;
        bounded = ground arith;
        fitting =
            All-replace (Small l) before after (Thread.waits size) (Thread.sleeps size) (λ w. w)
              h.fitting;
      }
  Step-IsBalanced (Step.drop before after size s) h =
      let a = length-middle before after (Thread.transfers size) in
      let b = length-middle before after (Thread.leaves size) in
      let c = held_bytes-middle before after (Thread.transfers size) in
      let d = held_bytes-middle before after (Thread.leaves size) in
      let e = length-notify_all (before ++ Thread.leaves size ∷ after) in
      let f = held_bytes-notify_all (before ++ Thread.leaves size ∷ after) in
      record {
        workers = ground arith;
        inflight = ground arith;
        bounded = ground arith;
        fitting = notify_all-Fits l (before ++ Thread.leaves size ∷ after) (
            All-replace (Small l) before after (Thread.transfers size) (Thread.leaves size) (λ w. w)
              h.fitting);
      }
  Step-IsBalanced (Step.leave before after size s s' given) h =
      let a = length-middle before after (Thread.leaves size) in
      let c = held_bytes-middle before after (Thread.leaves size) in
      record {
        workers = ground arith;
        inflight = ground arith;
        bounded = ground arith;
        fitting = All-remove (Small l) before after (Thread.leaves size) h.fitting;
      }

  -- In every system that the threads of a limiter get to, the semaphore counts the threads that
  -- hold a worker and `_inflight` is the sum of the sizes being transferred, so that there are at
  -- most `max_workers` of those threads and at most `max_inflight_bytes` bytes in flight, and
  -- each size fits by itself.
  pub Reachable-IsBalanced : {s : System} → Reachable l s → IsBalanced l s
  Reachable-IsBalanced Reachable.begins = record {
    workers = omega arith;
    inflight = refl;
    bounded = omega arith;
    fitting = tt;
  }
  Reachable-IsBalanced (Reachable.next r step) = Step-IsBalanced step (Reachable-IsBalanced r)

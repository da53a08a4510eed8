-- ===== src/Concurrency/Progress.antt =====
-- No interleaving of the limiter's threads gets stuck.
use mathlib.Core.Path.{subst}
use teldrive_lab.Prelude.{
  ℕ, zero, suc, ◌+◌, ◌<◌, ◌≡◌, refl, arith, List, [], ◌∷◌, ◌++◌, inl, inr, ◌⊎◌, sym, All,
}
use teldrive_lab.Sql.Laws.{All-map}
use teldrive_lab.Exec.{ok}
use teldrive_lab.Concurrency.{
  TransferLimits, Limiter, Thread, System, take_worker, add_bytes, drop_bytes, give_worker,
  notify_all,
}
use teldrive_lab.Concurrency.Steps.{start, Step, Reachable, Run}
use teldrive_lab.Concurrency.Laws.{
  bytes_of, held_bytes, IsBalanced, length-middle, All-replace, All-remove, Step-IsBalanced,
  Reachable-IsBalanced,
}

-- The steps that a thread has before it.
abbrev steps_left : Thread → ℕ
steps_left (Thread.waits size) = 3
steps_left (Thread.sleeps size) = 3
steps_left (Thread.transfers size) = 2
steps_left (Thread.leaves size) = 1

abbrev pending : List Thread → ℕ
pending [] = 0
pending (t ∷ ts) = steps_left t + pending ts

pending-middle :
    (ts us : List Thread) (t : Thread) → pending (ts ++ t ∷ us) ≡ steps_left t + pending (ts ++ us)
pending-middle [] us t = refl
pending-middle (u ∷ ts) us t = omega (arith, pending-middle ts us t)

pending-notify_all : (ts : List Thread) → pending (notify_all ts) ≡ pending ts
unfolding notify_all
pending-notify_all [] = refl
pending-notify_all (Thread.waits size ∷ ts) = omega (arith, pending-notify_all ts)
pending-notify_all (Thread.sleeps size ∷ ts) = omega (arith, pending-notify_all ts)
pending-notify_all (Thread.transfers size ∷ ts) = omega (arith, pending-notify_all ts)
pending-notify_all (Thread.leaves size ∷ ts) = omega (arith, pending-notify_all ts)

-- A sleeper has no room with this many bytes in flight.
abbrev Sleeps : TransferLimits → ℕ → Thread → Type 0
Sleeps l inflight (Thread.sleeps size) = l.max_inflight_bytes < inflight + size
Sleeps l inflight _ = Unit

-- No sleeper has missed its wake-up.
abbrev pub IsAlert : TransferLimits → System → Type 0
IsAlert l s = All (Sleeps l s.limiter.inflight) s.threads

notify_all-Sleeps :
    (l : TransferLimits) (inflight : ℕ) (ts : List Thread) → All (Sleeps l inflight) (notify_all ts)
unfolding notify_all
notify_all-Sleeps l inflight [] = tt
notify_all-Sleeps l inflight (Thread.waits size ∷ ts) = (tt, notify_all-Sleeps l inflight ts)
notify_all-Sleeps l inflight (Thread.sleeps size ∷ ts) = (tt, notify_all-Sleeps l inflight ts)
notify_all-Sleeps l inflight (Thread.transfers size ∷ ts) = (tt, notify_all-Sleeps l inflight ts)
notify_all-Sleeps l inflight (Thread.leaves size ∷ ts) = (tt, notify_all-Sleeps l inflight ts)

-- More bytes in flight leave no more room.
Sleeps-on : (l : TransferLimits) (n m : ℕ) (t : Thread) → Sleeps l n t → Sleeps l (n + m) t
Sleeps-on l n m (Thread.waits size) h = tt
Sleeps-on l n m (Thread.sleeps size) h = omega arith
Sleeps-on l n m (Thread.transfers size) h = tt
Sleeps-on l n m (Thread.leaves size) h = tt

Step-IsAlert : (l : TransferLimits) {s s' : System} → Step l s s' → IsAlert l s → IsAlert l s'
unfolding take_worker add_bytes drop_bytes give_worker
Step-IsAlert l (Step.enter ts request size s s' fits taken) h =
    let same : s'.inflight ≡ s.inflight = ground arith in
    (tt, subst (λ n. All (Sleeps l n) ts) (sym same) h)
Step-IsAlert l (Step.admit before after size s s' added) h =
    let more : s'.inflight ≡ s.inflight + size = ground arith in
    subst (λ n. All (Sleeps l n) (before ++ Thread.transfers size ∷ after)) (sym more)
      (All-map (Sleeps l s.inflight) (Sleeps l (s.inflight + size))
        (before ++ Thread.transfers size ∷ after) (λ t. Sleeps-on l s.inflight size t)
        (All-replace (Sleeps l s.inflight) before after (Thread.waits size) (Thread.transfers size)
          (λ w. tt) h))
Step-IsAlert l (Step.sleep before after size s full) h =
    All-replace (Sleeps l s.inflight) before after (Thread.waits size) (Thread.sleeps size)
      (λ w. ground arith) h
Step-IsAlert l (Step.drop before after size s) h =
    notify_all-Sleeps l _ (before ++ Thread.leaves size ∷ after)
Step-IsAlert l (Step.leave before after size s s' given) h =
    let same : s'.inflight ≡ s.inflight = ground arith in
    subst (λ n. All (Sleeps l n) (before ++ after)) (sym same)
      (All-remove (Sleeps l s.inflight) before after (Thread.leaves size) h)

Reachable-IsAlert : (l : TransferLimits) {s : System} → Reachable l s → IsAlert l s
Reachable-IsAlert l Reachable.begins = tt
Reachable-IsAlert l (Reachable.next r step) = Step-IsAlert l step (Reachable-IsAlert l r)

-- Nobody has bytes and nobody is on its way out, or one thread is.
data Survey : List Thread → Type 0 where
  all_wait : {ts : List Thread} → held_bytes ts ≡ 0 → Survey ts
  one_transfers :
      (before after : List Thread) (size : ℕ) → Survey (before ++ Thread.transfers size ∷ after)
  one_leaves :
      (before after : List Thread) (size : ℕ) → Survey (before ++ Thread.leaves size ∷ after)

behind : {ts : List Thread} (t : Thread) → bytes_of t ≡ 0 → Survey ts → Survey (t ∷ ts)
behind t z (Survey.all_wait h) = Survey.all_wait (omega (arith, h, z))
behind t z (Survey.one_transfers before after n) = Survey.one_transfers (t ∷ before) after n
behind t z (Survey.one_leaves before after n) = Survey.one_leaves (t ∷ before) after n

survey : (ts : List Thread) → Survey ts
survey [] = Survey.all_wait refl
survey (Thread.transfers size ∷ ts) = Survey.one_transfers [] ts size
survey (Thread.leaves size ∷ ts) = Survey.one_leaves [] ts size
survey (Thread.waits size ∷ ts) = behind (Thread.waits size) refl (survey ts)
survey (Thread.sleeps size ∷ ts) = behind (Thread.sleeps size) refl (survey ts)

-- A step that brings the threads nearer to their ends.
abbrev Move : TransferLimits → System → Type 0
Move l s = (s' : System) × Step l s s' × (pending s'.threads < pending s.threads)

module _ (l : TransferLimits) where
  first_enters :
      (ts : List Thread) (size : ℕ) (s : Limiter)
      → IsBalanced l (record { limiter = s; threads = Thread.waits size ∷ ts })
      → held_bytes (Thread.waits size ∷ ts) ≡ 0
      → Move l (record { limiter = s; threads = Thread.waits size ∷ ts })
  unfolding add_bytes
  first_enters ts size s h none_held = (
    _,
    Step.admit [] ts size s (record s { inflight = s.inflight + size }) (ground arith),
    omega arith,
  )

  worker_returns :
      (before after : List Thread) (size : ℕ) (s : Limiter)
      → IsBalanced l (record { limiter = s; threads = before ++ Thread.leaves size ∷ after })
      → give_worker l s ≡ ok (record s { workers = s.workers + 1 })
  unfolding give_worker
  worker_returns before after size s h =
      let e = length-middle before after (Thread.leaves size) in ground arith

  drops :
      (before after : List Thread) (size : ℕ) (s : Limiter)
      → Move l (record { limiter = s; threads = before ++ Thread.transfers size ∷ after })
  unfolding drop_bytes
  drops before after size s = (
    _,
    Step.drop before after size s,
    omega (
      arith,
      pending-middle before after (Thread.transfers size),
      pending-middle before after (Thread.leaves size),
      pending-notify_all (before ++ Thread.leaves size ∷ after),
    ),
  )

  leaves_now :
      (before after : List Thread) (size : ℕ) (s : Limiter)
      → IsBalanced l (record { limiter = s; threads = before ++ Thread.leaves size ∷ after })
      → Move l (record { limiter = s; threads = before ++ Thread.leaves size ∷ after })
  leaves_now before after size s h = (
    _,
    Step.leave before after size s (record s { workers = s.workers + 1 })
        (worker_returns before after size s h),
    omega (arith, pending-middle before after (Thread.leaves size)),
  )

  move :
      (s : Limiter) (ts : List Thread)
      → IsBalanced l (record { limiter = s; threads = ts })
      → IsAlert l (record { limiter = s; threads = ts })
      → Survey ts
      → (ts ≡ []) ⊎ Move l (record { limiter = s; threads = ts })
  move s [] h alert (Survey.all_wait none_held) = inl refl
  move s (Thread.waits size ∷ ts) h alert (Survey.all_wait none_held) =
      inr (first_enters ts size s h none_held)
  move s (Thread.sleeps size ∷ ts) h alert (Survey.all_wait none_held) =
      absurd (missed size ts s h alert.0 none_held)
    where
      missed :
          (size : ℕ) (ts : List Thread) (s : Limiter)
          → IsBalanced l (record { limiter = s; threads = Thread.sleeps size ∷ ts })
          → l.max_inflight_bytes < s.inflight + size
          → held_bytes (Thread.sleeps size ∷ ts) ≡ 0
          → ⊥
      missed size ts s h full none_held =
          let small = h.fitting.0 in let counted = h.inflight in omega arith
  move s (Thread.transfers size ∷ ts) h alert (Survey.all_wait none_held) = inr (drops [] ts size s)
  move s (Thread.leaves size ∷ ts) h alert (Survey.all_wait none_held) =
      inr (leaves_now [] ts size s h)
  move s _ h alert (Survey.one_transfers before after size) = inr (drops before after size s)
  move s _ h alert (Survey.one_leaves before after size) = inr (leaves_now before after size s h)

  ended : (s : System) → IsBalanced l s → s.threads ≡ [] → s ≡ start l
  ended s h none_left = ground arith

  drain :
      (n : ℕ) (s : System)
      → IsBalanced l s
      → IsAlert l s
      → pending s.threads < n
      → Run l s (start l)
  drain zero s h alert bound = absurd (omega arith)
  drain (suc n) s h alert bound = elim (move s.limiter s.threads h alert (survey s.threads)) [
    | inl none_left ↦ subst (Run l s) (ended s h none_left) Run.stays
    | inr (s', step, less) ↦
        Run.goes step
          (drain n s' (Step-IsBalanced l step h) (Step-IsAlert l step alert) (omega arith))
  ]

  -- Whatever the interleaving so far, the threads of a limiter can run to their ends, those too
  -- that sleep on the condition and need another thread to wake them: no thread is stuck for good,
  -- and when they have ended the limiter is as it was at the start.
  pub Reachable-drains : {s : System} → Reachable l s → Run l s (start l)
  Reachable-drains {s = s} r =
      drain (suc (pending s.threads)) s (Reachable-IsBalanced l r) (Reachable-IsAlert l r)
        (omega arith)

-- ===== src/Jobs/History.antt =====
-- What holds of a job over every sequence of methods.
use teldrive_lab.Prelude.{
  ◌≤◌, String, true, some, List, [], ◌∷◌, ◌≡◌, refl, arith, ◌==◌, inl, inr, Bool-cases, ap, ◌∙◌,
}
use teldrive_lab.Sql.Laws.{All-select_one}
use teldrive_lab.Jobs.{JobState, Row, is_terminal}
use teldrive_lab.Jobs.Store.{Table, find}
use teldrive_lab.Jobs.Invariant.{IsValid, IsRow, Effect, Evolves, RowStep, Edge}
use teldrive_lab.Jobs.Trace.{Op, perform, run, perform-Effect}

empty-IsValid : IsValid []
empty-IsValid = record { rows = tt; keys = tt; parents = tt }

pub run-IsValid_from : (ops : List Op) (t : Table) → IsValid t → IsValid (run ops t)
unfolding run
run-IsValid_from [] t v = v
run-IsValid_from (op ∷ ops) t v = run-IsValid_from ops (perform op t).1 (perform-Effect op t v).1

-- Whatever methods have run, in any order and with any errors, from an empty table: keys are
-- distinct and parents known, each row has an owner and a lease just while it is RUNNING or
-- VERIFYING, its attempts are within its ceiling and below it unless it has FAILED, and its
-- progress is 1 if it is COMPLETED and below 1 while it is VERIFYING.
pub run-IsValid : (ops : List Op) → IsValid (run ops [])
run-IsValid ops = run-IsValid_from ops [] empty-IsValid

-- The moves of one job over many methods.
pub data Reaches : JobState → JobState → Type 0 where
  here : {s : JobState} → Reaches s s
  step_on : {s u w : JobState} → Edge s u → Reaches u w → Reaches s w

Evolves-find :
    (k : String) (t t' : Table) (r : Row)
    → Evolves t t'
    → find k t ≡ some r
    → (r' : Row) × (find k t' ≡ some r') × RowStep r r'
unfolding find
Evolves-find k [] t' r e h = absurd (cc)
Evolves-find k (x ∷ t) [] r e h = absurd e
Evolves-find k (x ∷ t) (x' ∷ t') r e h = elim (Bool-cases (x.job_id == k)) [
  | inl m ↦
      let found : some x ≡ some r = rw m at h in
      let same : x ≡ r = cc in (x', rw (e.0.same_id) (rw m refl), rw (← same) e.0)
  | inr m ↦
      let (r', later, step) = Evolves-find k t t' r e.1 (rw m at h) in
      (r', rw (e.0.same_id) (rw m later), step)
]

terminal_moved : (r r' : Row) → RowStep r r' → is_terminal r.state ≡ true → r' ≡ r
terminal_moved r r' step h = elim (step.moved) [
  | inl same ↦ same
  | inr edge ↦ absurd (no_edge edge h)
]
  where
    no_edge : {s u : JobState} → Edge s u → is_terminal s ≡ true → ⊥
    no_edge Edge.start h = cc
    no_edge _ h = cc

moved_path : (r r' : Row) {u : JobState} → RowStep r r' → Reaches r'.state u → Reaches r.state u
moved_path r r' step path = elim (step.moved) [
  | inl same ↦ rw (← same) path
  | inr edge ↦ step_on edge path
]

attempts_capped :
    (k : String) (t : Table) (r : Row) → IsValid t → find k t ≡ some r → r.attempts ≤ r.max_attempts
unfolding find
attempts_capped k t r v h = (All-select_one IsRow (λ x. x.job_id == k) t r h v.rows).attempts_le

module _ (k : String) where
  -- A completed, failed or cancelled job is the same row after any further methods.
  pub terminal_frozen :
      (ops : List Op) (t : Table) (r : Row)
      → IsValid t
      → find k t ≡ some r
      → is_terminal r.state ≡ true
      → find k (run ops t) ≡ some r
  unfolding run
  terminal_frozen [] t r v h done = h
  terminal_frozen (op ∷ ops) t r v h done =
      let t' : Table = (perform op t).1 in
      let effect : Effect t t' = perform-Effect op t v in
      let (r', later, step) = Evolves-find k t t' r effect.0 h in
      let same : r' ≡ r = terminal_moved r r' step done in
      terminal_frozen ops t' r effect.1 (later ∙ ap some same) done

  -- A job that is in the table is never lost: after any further methods its row is there, its
  -- state is reached along the edges of the state machine, its attempts have not gone down, and
  -- they are at most the retry ceiling, which has not changed.
  pub job_history :
      (ops : List Op) (t : Table) (r : Row)
      → IsValid t
      → find k t ≡ some r
      → (r' : Row) × (find k (run ops t) ≡ some r')
        × Reaches r.state r'.state
        × (r.attempts ≤ r'.attempts)
        × (r'.attempts ≤ r.max_attempts)
  unfolding run
  job_history [] t r v h = (r, h, here, omega arith, attempts_capped k t r v h)
  job_history (op ∷ ops) t r v h =
      let t' : Table = (perform op t).1 in
      let effect : Effect t t' = perform-Effect op t v in
      let (r', later, step) = Evolves-find k t t' r effect.0 h in
      let (r₂, found, path, grow, cap) = job_history ops t' r' effect.1 later in
      (
        r₂,
        found,
        moved_path r r' step path,
        omega (arith, step.attempts_grow, grow),
        rw (← step.same_ceiling) cap,
      )

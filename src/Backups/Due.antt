-- ===== src/Backups/Due.antt =====
-- A run of the scheduler: the jobs it adds, and the schedules it leaves due.
use teldrive_lab.Prelude.{
  ℕ, suc, ◌<◌, String, true, false, Option, none, some, List, [], ◌∷◌, ◌++◌, map, filter_by, ◌≡◌,
  refl, sym, ◌∙◌, arith, All, inl, inr, Bool-cases, eq_iff, eq_refl,
}
use mathlib.Core.Path.{subst}
use teldrive_lab.Exec.{Error, ok, err, Any-cases, Result-cases, bind_lem, pure, ◌>>=◌}
use teldrive_lab.Sql.{select_one, order_by}
use teldrive_lab.Sql.Laws.{All-map, All-zip, All-select_one}
use teldrive_lab.Sql.Order.{All-order_by, All-order_by_inv}
use teldrive_lab.Text.{is_one_of}
use teldrive_lab.Jobs.{JobType}
use teldrive_lab.Jobs.Store.{enqueue}
use teldrive_lab.Backups.Queued.{backup_row, enqueue_lem, Adds, Adds-none, Adds-one}
use teldrive_lab.Monitoring.Active.{All-updated}
use teldrive_lab.Backups.Schedules.{
  BackupSchedule, Schedules, has_schedule, by_id, schedules, is_due, due_schedules, next_run,
  advance_schedule, advance_found, SchedulerState, SchedulerSession, backup_request, run_one,
  run_all, run_due,
}

-- The schedule's interval is positive, and if it is due its id is still to come.
abbrev pub Waits : ℕ → List String → BackupSchedule → Type 0
Waits now todo s =
    (0 < s.interval_seconds) × (is_due now s ≡ true → is_one_of s.schedule_id todo ≡ true)

abbrev advanced : ℕ → String → Schedules → Schedules
advanced now k rows = (advance_schedule k now rows).1

raised : {e : Error} → err e ≡ ok tt → ⊥
raised h = cc

later :
    (now : ℕ) (s row : BackupSchedule)
    → 0 < row.interval_seconds
    → is_due now (record s { next_run_at = next_run now row }) ≡ true
    → ⊥
later now s row p due = ground (arith, p, due)

still :
    (k : String) (todo : List String) (s : BackupSchedule)
    → has_schedule k s ≡ false
    → is_one_of s.schedule_id (k ∷ todo) ≡ true
    → is_one_of s.schedule_id todo ≡ true
still k todo s other h = ground (arith, other, h, eq_iff k s.schedule_id, eq_iff s.schedule_id k)

found_Waits :
    (now : ℕ) (k : String) (todo : List String) (rows : Schedules) (o : Option BackupSchedule)
    → select_one (has_schedule k) rows ≡ o
    → (advance_found k now o rows).0 ≡ ok tt
    → All (Waits now (k ∷ todo)) rows
    → All (Waits now todo) (advance_found k now o rows).1
found_Waits now k todo rows none e h waits = absurd (raised h)
found_Waits now k todo rows (some row) e h waits =
    let positive_row =
      (All-select_one (Waits now (k ∷ todo)) (has_schedule k) rows row e waits).0 in
    All-updated (Waits now (k ∷ todo)) (Waits now todo) (has_schedule k)
      (λ s. record s { next_run_at = next_run now row }) rows
      (λ s own w. (w.0, (λ due. absurd (later now s row positive_row due))))
      (λ s other w. (w.0, (λ due. still k todo s other (w.1 due)))) waits

advance_Waits :
    (now : ℕ) (k : String) (todo : List String) (rows : Schedules)
    → (advance_schedule k now rows).0 ≡ ok tt
    → All (Waits now (k ∷ todo)) rows
    → All (Waits now todo) (advanced now k rows)
unfolding advance_schedule
advance_Waits now k todo rows h waits =
    found_Waits now k todo rows (select_one (has_schedule k) rows) refl h waits

module _ (session : SchedulerSession) where
  run_one_rows :
      (now n : ℕ) (s : BackupSchedule) (state : SchedulerState) (id : String)
      → (run_one session now n s state).0 ≡ ok id
      → ((advance_schedule s.schedule_id now state.rows).0 ≡ ok tt)
        × ((run_one session now n s state).1.rows ≡ advanced now s.schedule_id state.rows)
        × ((run_one session now n s state).1.jobs
            ≡ state.jobs
              ++ backup_row
                  (session.dumps s.sources)
                  s.destination
                  (session.fresh n)
                  (session.time n)
                ∷ [])
        × (id ≡ session.fresh n)
  unfolding run_one
  run_one_rows now n s state id h =
      elim (Any-cases
        (enqueue JobType.backup (backup_request (session.dumps s.sources) s.destination)
          (session.fresh n) (session.time n) state.jobs).0) [
            | inl (job, done) ↦
                elim (Result-cases (advance_schedule s.schedule_id now state.rows).0) [
                  | inl moved ↦
                      let (grown, named) =
                        enqueue_lem (session.dumps s.sources) s.destination (session.fresh n)
                          (session.time n) state.jobs job done in
                      (
                        moved,
                        ground (arith, done, moved),
                        ground (arith, done, moved, grown),
                        ground (arith, done, moved, named, h),
                      )
                  | inr (e, lost) ↦ absurd (ground (arith, done, lost, h))
                ]
            | inr (e, refused) ↦ absurd (ground (arith, refused, h))
          ]

  run_all_lem :
      (now n : ℕ) (due : List BackupSchedule) (state : SchedulerState) (created : List String)
      → (run_all session now n due state).0 ≡ ok created
      → All (Waits now (map (λ s. s.schedule_id) due)) state.rows
      → let after = (run_all session now n due state).1 in
        All (Waits now []) after.rows × Adds session.dumps due created state.jobs after.jobs
  unfolding run_all
  run_all_lem now n [] state created h waits =
      let same : created ≡ [] = ground (arith, h) in
      (
        waits,
        subst (λ ids. Adds session.dumps [] ids state.jobs state.jobs) (sym same)
            (Adds-none session.dumps state.jobs),
      )
  run_all_lem now n (s ∷ due) state created h waits =
      let (id, done, after, goes_on) =
        bind_lem (run_one session now n s)
          (λ id. run_all session now (suc n) due >>= λ made. pure (id ∷ made)) state created h in
      let (moved, rows, jobs, named) = run_one_rows now n s state id done in
      let (rest, all_done, end, last) =
        bind_lem (run_all session now (suc n) due) (λ made. pure (id ∷ made))
          (run_one session now n s state).1 created goes_on in
      let (clear, added) =
        run_all_lem now (suc n) due (run_one session now n s state).1 rest all_done (
          rw rows (
            advance_Waits now s.schedule_id (map (λ s. s.schedule_id) due) state.rows moved
              waits)) in
      let table : (run_all session now n (s ∷ due) state).1
          ≡ (run_all session now (suc n) due (run_one session now n s state).1).1 =
        after ∙ end in
      let ids : session.fresh n ∷ rest ≡ created = ground (arith, last, named) in
      (
        subst (λ t. All (Waits now []) t.rows) (sym table) clear,
        subst (λ t. Adds session.dumps (s ∷ due) created state.jobs t.jobs) (sym table)
            (subst
              (λ ids.
                Adds session.dumps (s ∷ due) ids state.jobs
                  (run_all session now (suc n) due (run_one session now n s state).1).1.jobs)
              ids
              (Adds-one session.dumps s due (session.fresh n) (session.time n) rest state.jobs
                (run_one session now n s state).1.jobs _ jobs added)),
      )

  none_due :
      (now : ℕ) (rows : Schedules) → All (Waits now []) rows → filter_by (is_due now) rows ≡ []
  none_due now [] h = refl
  none_due now (s ∷ rows) ((p, w), h) = elim (Bool-cases (is_due now s)) [
    | inl due ↦ absurd (cc (w due))
    | inr later ↦ rw later (none_due now rows h)
  ]

  due_none : (now : ℕ) (rows : Schedules) → All (Waits now []) rows → due_schedules now rows ≡ []
  unfolding due_schedules schedules
  due_none now rows h =
      none_due now (order_by by_id rows) (All-order_by by_id (Waits now []) rows h)

  -- Before the loop every due schedule is on its list.
  is_one_of-filter_by :
      (now : ℕ) (rows : Schedules)
      → All
          (λ s.
            is_due now s ≡ true
            → is_one_of s.schedule_id (map (λ s. s.schedule_id) (filter_by (is_due now) rows))
              ≡ true)
          rows
  is_one_of-filter_by now [] = tt
  is_one_of-filter_by now (s ∷ rows) = (
    (λ due. rw due (rw (eq_refl s.schedule_id) refl)),
    All-map _ _ rows (λ t listed due. longer now s rows t.schedule_id (listed due))
        (is_one_of-filter_by now rows),
  )
    where
      longer :
          (now : ℕ) (s : BackupSchedule) (rows : Schedules) (k : String)
          → is_one_of k (map (λ s. s.schedule_id) (filter_by (is_due now) rows)) ≡ true
          → is_one_of k (map (λ s. s.schedule_id) (filter_by (is_due now) (s ∷ rows))) ≡ true
      longer now s rows k h = elim (Bool-cases (is_due now s)) [
        | inl due ↦ rw due (ground (arith, h))
        | inr later ↦ rw later h
      ]

  first-Waits :
      (now : ℕ) (rows : Schedules)
      → All (λ s. 0 < s.interval_seconds) rows
      → All (Waits now (map (λ s. s.schedule_id) (due_schedules now rows))) rows
  unfolding due_schedules schedules
  first-Waits now rows intervals =
      All-zip _ _ rows intervals
        (All-order_by_inv by_id _ rows (is_one_of-filter_by now (order_by by_id rows)))

  -- When every schedule has a positive interval and `run_due` returns, no schedule is due at that
  -- time any more, and the table of jobs has grown by exactly one queued backup job for each schedule
  -- that was due, in their order, with its sources and its destination, and with the identifiers
  -- that are returned.
  pub run_due_clears :
      (now : ℕ) (state : SchedulerState) (created : List String)
      → All (λ s. 0 < s.interval_seconds) state.rows
      → (run_due session now state).0 ≡ ok created
      → (due_schedules now (run_due session now state).1.rows ≡ [])
        × Adds session.dumps
            (due_schedules now state.rows)
            created
            state.jobs
            (run_due session now state).1.jobs
  unfolding run_due
  run_due_clears now state created intervals h =
      let (waits, added) =
        run_all_lem now 0 (due_schedules now state.rows) state created h
          (first-Waits now state.rows intervals) in
      (due_none now _ waits, added)

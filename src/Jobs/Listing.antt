-- ===== src/Jobs/Listing.antt =====
-- The listings of `JobStore`: `list_jobs` and the summary of a parent's children.
use teldrive_lab.Prelude.{
  ℕ, ◌+◌, ◌≤◌, ◌<◌, zero, suc, String, true, Option, some, List, [], ◌∷◌, map, ◌≡◌, refl, ap, arith,
  ◌⊎◌, ◌↔◌, pos, All, length, take, length-take-le, filter_by,
}
use teldrive_lab.Exec.{Error, ok, err, value_error}
use teldrive_lab.Sql.{order_by}
use teldrive_lab.Sql.Laws.{All-filter_by_test}
use teldrive_lab.Sql.Order.{All-order_by}
use teldrive_lab.Jobs.{JobState, Job, Row, is_terminal}
use teldrive_lab.Jobs.Store.{
  Table, to_job, list_jobs, newest_first, wanted, counted, children, child_summary, terminal,
  successful,
}

-- The states partition the jobs.
counted_partition :
    (jobs : List Job)
    → counted JobState.queued jobs
        + counted JobState.running jobs
        + counted JobState.paused jobs
        + counted JobState.verifying jobs
        + counted JobState.completed jobs
        + counted JobState.failed jobs
        + counted JobState.cancelled jobs
      ≡ length jobs
counted_partition [] = refl
counted_partition (j ∷ jobs) = ground (arith, counted_partition jobs)

-- The jobs in a terminal state are all of them just when their count is the length.
All-terminal :
    (jobs : List Job)
    → counted JobState.completed jobs
        + counted JobState.failed jobs
        + counted JobState.cancelled jobs
      ≡ length jobs
    → All (λ j. is_terminal j.state ≡ true) jobs
All-terminal [] h = tt
All-terminal (j ∷ jobs) h = (
  ground (arith, counted_partition jobs),
  All-terminal jobs (ground (arith, counted_partition jobs)),
)

terminal_counted :
    (jobs : List Job)
    → All (λ j. is_terminal j.state ≡ true) jobs
    → counted JobState.completed jobs
        + counted JobState.failed jobs
        + counted JobState.cancelled jobs
      ≡ length jobs
terminal_counted [] h = refl
terminal_counted (j ∷ jobs) h = ground (arith, terminal_counted jobs h.1)

All-completed :
    (jobs : List Job)
    → counted JobState.completed jobs ≡ length jobs
    → All (λ j. j.state ≡ JobState.completed) jobs
All-completed [] h = tt
All-completed (j ∷ jobs) h = (
  ground (arith, counted_partition jobs),
  All-completed jobs (ground (arith, counted_partition jobs)),
)

completed_counted :
    (jobs : List Job)
    → All (λ j. j.state ≡ JobState.completed) jobs
    → counted JobState.completed jobs ≡ length jobs
completed_counted [] h = refl
completed_counted (j ∷ jobs) h = ground (arith, completed_counted jobs h.1)

module _ (parent : String) (t : Table) where
  -- The seven counts add up to the number of children. The summary is terminal exactly when there
  -- is a child and every child is COMPLETED, FAILED or CANCELLED, and successful exactly when
  -- there is a child and every child is COMPLETED.
  pub summary_faithful :
      let c = child_summary parent t in
      let cs = children parent t in
      (c.queued + c.running + c.paused + c.verifying + c.completed + c.failed + c.cancelled
        ≡ c.total)
      × ((terminal c ≡ true) ↔ ((0 < length cs) × All (λ j. is_terminal j.state ≡ true) cs))
      × ((successful c ≡ true) ↔ ((0 < length cs) × All (λ j. j.state ≡ JobState.completed) cs))
  unfolding child_summary terminal successful
  summary_faithful =
      let cs = children parent t in
      (
        counted_partition cs,
        (
          (λ h. (ground arith, All-terminal cs (ground arith))),
          (λ (some_child, all). ground (arith, terminal_counted cs all)),
        ),
        (
          (λ h. (ground arith, All-completed cs (ground arith))),
          (λ (some_child, all). ground (arith, completed_counted cs all, counted_partition cs)),
        ),
      )

All-take {ℓ} : {A : Type 0} (P : A → Type ℓ) (n : ℕ) (xs : List A) → All P xs → All P (take n xs)
All-take P zero xs h = tt
All-take P (suc n) [] h = tt
All-take P (suc n) (x ∷ xs) h = (h.0, All-take P n xs h.1)

All-to_job :
    (s : Option JobState) (rows : List Row)
    → All (λ r. wanted s r ≡ true) rows
    → All (λ j. (u : JobState) → s ≡ some u → j.state ≡ u) (map to_job rows)
unfolding to_job
All-to_job s [] h = tt
All-to_job s (r ∷ rows) h = ((λ u e. ground arith), All-to_job s rows h.1)

length-map : {A B : Type 0} (f : A → B) (xs : List A) → length (map f xs) ≡ length xs
length-map f [] = refl
length-map f (x ∷ xs) = ap suc (length-map f xs)

-- A listing with a limit from 1 to 1000 succeeds, with at most that many jobs, all in the state
-- that was asked for; with any other limit it raises.
pub list_jobs_lem :
    (s : Option JobState) (limit : ℕ) (t : Table)
    → (1 ≤ limit
        → limit ≤ 1000
        → (jobs : List Job) × ((list_jobs s (pos limit) t).0 ≡ ok jobs)
          × (length jobs ≤ limit)
          × All (λ j. (u : JobState) → s ≡ some u → j.state ≡ u) jobs)
      × ((limit ≡ 0) ⊎ (1000 < limit) → (e : Error) × ((list_jobs s (pos limit) t).0 ≡ err e))
unfolding list_jobs
list_jobs_lem s limit t =
    let rows = take limit (order_by newest_first (filter_by (wanted s) t)) in
    (
      (λ low high. (
        map to_job rows,
        ground arith,
        omega (
          arith,
          length-map to_job rows,
          length-take-le limit (order_by newest_first (filter_by (wanted s) t)),
        ),
        All-to_job s rows (
            All-take (λ r. wanted s r ≡ true) limit (order_by newest_first (filter_by (wanted s) t))
              (All-order_by newest_first (λ r. wanted s r ≡ true) (filter_by (wanted s) t)
                (All-filter_by_test (wanted s) t))),
      )),
      (λ outside. (value_error "limit must be between 1 and 1000", ground arith)),
    )

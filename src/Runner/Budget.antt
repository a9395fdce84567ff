-- ===== src/Runner/Budget.antt =====
-- The pre-flight on an agent's budget, and the money that the runner counts.
use sleeper_service.Base.{ℕ, ◌≤◌, ◌≡◌, refl, ap, ◌∙◌, sym, Bool, true, some}
use sleeper_service.Base.Tests.{le→leb}
use sleeper_service.Base.Table.{find}
use sleeper_service.Models.Jobs.{Job, budget_exceeded, monthly_limit, job_keyed}
use sleeper_service.State.{Db, AlertEvent}
use sleeper_service.Services.{Services, Trace}
use sleeper_service.Spending.{month_spend}
use sleeper_service.Alerts.{notify}
use sleeper_service.Alerts.Frame.{jobs-notify}
use sleeper_service.Runner.Finalize.{finalize, finish_row, charge, unpriced_events, with_error}
use sleeper_service.Runner.Row.{find-finalize}
use sleeper_service.Runner.Start.{Rows, rows_of, is_runnable}
use sleeper_service.Runner.{returned, run_rows, execute_once, execute_job, fall_back}

unpaid :
    (s : Services) (db : Db) (spend limit : ℕ) (job : Job)
    → (let j = finish_row s db budget_exceeded (with_error (monthly_limit spend limit)) job in
        (j.status ≡ budget_exceeded)
        × (j.error ≡ some (monthly_limit spend limit))
        × (j.cost ≡ job.cost))
unfolding charge
unpaid s db spend limit job = (refl, refl, refl)

module _ (s : Services) (sync_cap : Bool) (job_id : ℕ) (db : Db) (job : Job) (r : Rows) (limit : ℕ)
    (here : find job_id db.jobs ≡ some job) (runs : is_runnable job.status ≡ true)
    (rows : rows_of db job ≡ some r) (limited : r.agent.spending_limit ≡ some limit)
    (reached : limit ≤ month_spend db r.agent.id) where
  refused : (run : Bool → ℕ → Db → Db × Trace) → Db
  refused run = notify s.permitted r.agent.id AlertEvent.budget (
      finalize (record s { run = run }) job_id budget_exceeded
        (with_error (monthly_limit (month_spend db r.agent.id) limit)) db)

  execute_job_as :
      (run : Bool → ℕ → Db → Db × Trace)
      → execute_job (record s { run = run }) sync_cap job_id db ≡ (refused run, returned)
  unfolding execute_job execute_once run_rows fall_back refused
  execute_job_as run =
      let over = le→leb limit (month_spend db r.agent.id) reached in
      rw (execute_job, execute_once, run_rows, here, runs, rows, limited, over) refl

  refused_alike : (run : Bool → ℕ → Db → Db × Trace) → refused run ≡ refused s.run
  unfolding refused finalize charge unpriced_events
  refused_alike run = refl

  find-refused :
      find job_id (refused s.run).jobs
      ≡ some (
          finish_row s db budget_exceeded
            (with_error (monthly_limit (month_spend db r.agent.id) limit))
            job)
  unfolding refused
  find-refused =
      ap (find job_id) (jobs-notify s.permitted r.agent.id AlertEvent.budget _)
      ∙ find-finalize s job_id budget_exceeded
          (with_error (monthly_limit (month_spend db r.agent.id) limit)) db here

  -- Where the month's spend has reached the agent's limit, a job that waits or runs is refused before any model is
  -- called: the result is the same for every model. The job ends as budget_exceeded, with the two amounts as its error
  -- and with the cost it had.
  pub execute_job_refused :
      ((run : Bool → ℕ → Db → Db × Trace)
        → execute_job (record s { run = run }) sync_cap job_id db
          ≡ execute_job s sync_cap job_id db)
      × ((execute_job s sync_cap job_id db).1 ≡ returned)
      × ((j : Job) × (find job_id (execute_job s sync_cap job_id db).0.jobs ≡ some j)
          × (j.status ≡ budget_exceeded)
          × (j.error ≡ some (monthly_limit (month_spend db r.agent.id) limit))
          × (j.cost ≡ job.cost))
  execute_job_refused =
      let spend = month_spend db r.agent.id in
      let (same_status, same_error, same_cost) = unpaid s db spend limit job in
      (
        λ run.
            execute_job_as run
            ∙ (ap (λ d. (d, returned)) (refused_alike run) ∙ sym (execute_job_as s.run)),
        ap (λ p. p.1) (execute_job_as s.run),
        (
          finish_row s db budget_exceeded (with_error (monthly_limit spend limit)) job,
          ap (λ p. find job_id p.0.jobs) (execute_job_as s.run) ∙ find-refused,
          same_status,
          same_error,
          same_cost,
        ),
      )

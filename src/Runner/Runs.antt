-- ===== src/Runner/Runs.antt =====
-- A job leaves the eval runs as they are, except that it may add one.
use sleeper_service.Base.{
  ℕ, ◌≡◌, ◌-◌, refl, ap, ◌∙◌, inl, inr, Bool, true, false, Option, none, some, List, [], ◌∷◌, ◌&&◌,
  not,
}
use sleeper_service.Base.Tests.{leb, Bool-cases, Option-cases}
use sleeper_service.Base.Table.{find, modify}
use sleeper_service.Base.Text.{Text}
use sleeper_service.Models.Agents.{Agent}
use sleeper_service.Models.Jobs.{
  Job, JobStatus, failed, rejected, budget_exceeded, JobError, EventType, monthly_limit,
  config_error, grant_error, screen_matched, injection_detected, cancelled_parent, job_keyed,
}
use sleeper_service.Models.Evals.{EvalRun, run_keyed}
use sleeper_service.State.{Db, AlertEvent, add_event}
use sleeper_service.Services.{Services, Trace}
use sleeper_service.Alerts.Frame.{runs-notify, runs-check_error_rate}
use sleeper_service.Spending.{month_spend}
use sleeper_service.Memory.{approval_required}
use sleeper_service.Memory.Frame.{HasRun, HasRun-write_memory}
use sleeper_service.Runner.{
  Attempt, returned, raised_transient, falls_back, raised_cancelled, no_row, conclude, run_model,
  screen_job, run_started, run_rows, execute_once, fall_back, execute_job,
}
use sleeper_service.Runner.Finalize.{
  Finish, finalize, finish_row, finish_events, add_events, alerts_error_rate, with_error, mark_job,
  handle_cancellation,
}
use sleeper_service.Runner.Loop.{Verdict, finish, transient, fallback, interrupted}
use sleeper_service.Runner.Start.{Rows, rows_of, is_runnable, start}
use sleeper_service.Runner.Post.{
  Outcome, settle, post_hooks, propose, alert_budget, finish_of, last, is_succeeded,
}

runs-add_events :
    (job_id : ℕ) (es : List EventType) (db : Db)
    → (add_events job_id es db).eval_runs ≡ db.eval_runs
runs-add_events job_id [] db = refl
runs-add_events job_id (e ∷ es) db = runs-add_events job_id es (add_event job_id e db)

runs-finalize :
    (s : Services) (job_id : ℕ) (status : JobStatus) (f : Finish) (db : Db)
    → (finalize s job_id status f db).eval_runs ≡ db.eval_runs
unfolding finalize
runs-finalize s job_id status f db =
    let done : Db = record db { jobs = modify job_id (finish_row s db status f) db.jobs } in
    let committed = runs-add_events job_id (finish_events s status f) done in
    elim (Option-cases (find job_id db.jobs)) [
      | inl n ↦ rw (finalize, n) refl
      | inr (job, e) ↦ elim (Bool-cases (not job.is_eval && alerts_error_rate status)) [
        | inl b ↦ rw (finalize, e, b) (runs-check_error_rate s.permitted job.agent_id _ ∙ committed)
        | inr b ↦ rw (finalize, e, b) committed
      ]
    ]

pub runs-mark_job :
    (s : Services) (job_id : ℕ) (status : JobStatus) (error : JobError) (db : Db)
    → (mark_job s job_id status error db).eval_runs ≡ db.eval_runs
unfolding mark_job
runs-mark_job s job_id status error db = runs-finalize s job_id status (with_error error) db

runs-handle_cancellation :
    (s : Services) (job_id : ℕ) (db : Db)
    → (handle_cancellation s job_id db).eval_runs ≡ db.eval_runs
unfolding handle_cancellation
runs-handle_cancellation s job_id db = elim (Option-cases (find job_id db.jobs)) [
  | inl n ↦ rw (handle_cancellation, n) refl
  | inr (job, e) ↦ elim (Option-cases job.parent_job_id) [
    | inl n ↦ rw (handle_cancellation, e, n) refl
    | inr (p, n) ↦
        rw (handle_cancellation, e, n)
          (runs-finalize s job_id failed (with_error cancelled_parent) db)
  ]
]

runs-alert_budget :
    (s : Services) (agent : Agent) (status : JobStatus) (db : Db)
    → (alert_budget s agent status db).eval_runs ≡ db.eval_runs
runs-alert_budget s agent budget_exceeded db = runs-notify s.permitted agent.id AlertEvent.budget db
runs-alert_budget s agent JobStatus.queued db = refl
runs-alert_budget s agent JobStatus.running db = refl
runs-alert_budget s agent JobStatus.succeeded db = refl
runs-alert_budget s agent JobStatus.escalated db = refl
runs-alert_budget s agent failed db = refl
runs-alert_budget s agent rejected db = refl
runs-alert_budget s agent JobStatus.iteration_limit db = refl
runs-alert_budget s agent JobStatus.timeout db = refl
runs-alert_budget s agent JobStatus.dead_letter db = refl

-- The tools of a model's run change no eval run.
abbrev pub KeepsRuns : Services → Type 0
KeepsRuns s =
    (prompted : Bool) (job_id : ℕ) (db : Db) (i : ℕ) (r : EvalRun)
    → HasRun i r db
    → HasRun i r (s.run prompted job_id db).0

module _ (s : Services) (keeps : KeepsRuns s) (i : ℕ) (run : EvalRun) where
  HasRun-propose :
      (agent : Agent) (job_id : ℕ) (proposals : List Text) (r : Outcome) (db : Db)
      → HasRun i run db
      → HasRun i run (propose s agent job_id proposals r db)
  unfolding propose
  HasRun-propose agent job_id proposals r db h = elim (Bool-cases (is_succeeded r.status)) [
    | inr b ↦ rw (propose, b) h
    | inl b ↦ elim (Option-cases (last proposals)) [
      | inl e ↦ rw (propose, b, e) h
      | inr (content, e) ↦
          rw (propose, b, e)
            (HasRun-write_memory i run s agent.id content (some job_id) true
              (approval_required agent.options) db h)
    ]
  ]

  HasRun-conclude :
      (r : Rows) (job_id : ℕ) (t : Trace) (v : Verdict) (db : Db)
      → HasRun i run db
      → HasRun i run (conclude s r job_id t v db).0
  unfolding conclude settle
  HasRun-conclude r job_id t (finish status output error usage) db h =
      let result = post_hooks s r t status output error in
      ap (find i) (runs-alert_budget s r.agent result.status _)
      ∙ ap (find i) (runs-finalize s job_id result.status (finish_of r t usage result) _)
      ∙ HasRun-propose r.agent job_id t.memory_proposals result db h
  HasRun-conclude r job_id t (transient message) db h = h
  HasRun-conclude r job_id t fallback db h = h
  HasRun-conclude r job_id t interrupted db h =
      ap (find i) (runs-handle_cancellation s job_id db) ∙ h

  module _ (sync_cap : Bool) (job_id : ℕ) where
    HasRun-run_model :
        (prompted : Bool) (r : Rows) (budget : Option ℕ) (db : Db)
        → HasRun i run db
        → HasRun i run (run_model s prompted sync_cap r budget job_id db).0
    unfolding run_model
    HasRun-run_model prompted r budget db h =
        HasRun-conclude r job_id (s.run prompted job_id db).1 _ _ (keeps prompted job_id db i run h)

    HasRun-finalize :
        (status : JobStatus) (f : Finish) (db : Db)
        → HasRun i run db
        → HasRun i run (finalize s job_id status f db)
    HasRun-finalize status f db h = ap (find i) (runs-finalize s job_id status f db) ∙ h

    HasRun-run_started :
        (prompted : Bool) (r : Rows) (budget : Option ℕ) (job : Job) (db : Db)
        → HasRun i run db
        → HasRun i run (run_started s prompted sync_cap r budget job_id job db).0
    unfolding run_started
    HasRun-run_started prompted r budget job db h =
        elim (Option-cases (s.config_error r.model r.version r.agent)) [
          | inr (m, e) ↦
              rw (run_started, e) (HasRun-finalize failed (with_error (config_error m)) db h)
          | inl e ↦ elim (Option-cases (s.grant_error db r.agent r.version job)) [
            | inr (m, g) ↦
                rw (run_started, e, g) (HasRun-finalize failed (with_error (grant_error m)) db h)
            | inl g ↦ elim (Option-cases (screen_job s r job db)) [
              | inr (flag, f) ↦
                  rw (run_started, e, g, f)
                    (HasRun-finalize rejected (with_error (screen_matched flag))
                      (add_event job_id (injection_detected flag) db) h)
              | inl f ↦ rw (run_started, e, g, f) (HasRun-run_model prompted r budget db h)
            ]
          ]
        ]

    HasRun-run_rows :
        (prompted : Bool) (r : Rows) (job : Job) (db : Db)
        → HasRun i run db
        → HasRun i run (run_rows s prompted sync_cap r job_id job db).0
    unfolding run_rows
    HasRun-run_rows prompted r job db h = elim (Option-cases r.agent.spending_limit) [
      | inl e ↦ rw (run_rows, e) (HasRun-run_started prompted r none job (start r job_id db) h)
      | inr (limit, e) ↦ elim (Bool-cases (leb limit (month_spend db r.agent.id))) [
        | inl reached ↦
            let refused = with_error (monthly_limit (month_spend db r.agent.id) limit) in
            rw (run_rows, e, reached)
              (ap (find i) (
                  runs-notify s.permitted r.agent.id AlertEvent.budget
                    (finalize s job_id budget_exceeded refused db))
                ∙ HasRun-finalize budget_exceeded refused db h)
        | inr under ↦
            rw (run_rows, e, under)
              (HasRun-run_started prompted r (some (limit - month_spend db r.agent.id)) job
                (start r job_id db) h)
      ]
    ]

    HasRun-execute_once :
        (prompted : Bool) (db : Db)
        → HasRun i run db
        → HasRun i run (execute_once s prompted sync_cap job_id db).0
    unfolding execute_once
    HasRun-execute_once prompted db h = elim (Option-cases (find job_id db.jobs)) [
      | inl n ↦ rw (execute_once, n) h
      | inr (job, e) ↦ elim (Bool-cases (is_runnable job.status)) [
        | inr done ↦ rw (execute_once, e, done) h
        | inl runs ↦ elim (Option-cases (rows_of db job)) [
          | inl missing ↦ rw (execute_once, e, runs, missing) h
          | inr (r, rows) ↦ rw (execute_once, e, runs, rows) (HasRun-run_rows prompted r job db h)
        ]
      ]
    ]

    HasRun-fall_back :
        (db : Db) (a : Attempt)
        → HasRun i run db
        → HasRun i run (fall_back s sync_cap job_id db a).0
    unfolding fall_back
    HasRun-fall_back db returned h = h
    HasRun-fall_back db (raised_transient m) h = h
    HasRun-fall_back db falls_back h = HasRun-execute_once true db h
    HasRun-fall_back db raised_cancelled h = h
    HasRun-fall_back db no_row h = h

    -- An eval run that is there before a job is there after it, with the same row.
    pub HasRun-execute_job :
        (db : Db) → HasRun i run db → HasRun i run (execute_job s sync_cap job_id db).0
    unfolding execute_job
    HasRun-execute_job db h =
        let first = execute_once s false sync_cap job_id db in
        HasRun-fall_back first.0 first.1 (HasRun-execute_once false db h)

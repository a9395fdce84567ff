-- ===== src/Runner.antt =====
-- runtime/runner.py: one job, from its row to its end. `execute_once` is the body of `execute_job` up to its call of
-- itself; Runner/Loop has the guarded run, Runner/Finalize the bookkeeping.
pub mod Finalize
pub mod Loop
pub mod Start
pub mod Post
pub mod Guards
pub mod Row
pub mod Final
pub mod Budget
pub mod Unpaid
pub mod Outcomes
pub mod Runs
mod Tests
use sleeper_service.Base.{
  ℕ, ◌-◌, String, Bool, true, false, Option, none, some, List, [], ◌∷◌, ◌++◌, ◌&&◌, not, map, min,
}
use sleeper_service.Base.Tests.{leb, ◌==◌, str_eq, if◌then◌else◌}
use sleeper_service.Base.Table.{find, modify}
use sleeper_service.Base.Text.{Text}
use sleeper_service.Models.Json.{
  Value, number, array, object, text, null, Items, nil, cons, Fields, end, field, pos,
}
use sleeper_service.Models.Auth.{Tenant, Team, tenant_keyed, team_keyed}
use sleeper_service.Models.Agents.{
  Agent, AgentVersion, Model, agent_keyed, version_keyed, model_keyed,
}
use sleeper_service.Models.Jobs.{
  Flag, Job, JobStatus, queued, running, succeeded, escalated, failed, rejected, budget_exceeded,
  JobError, monthly_limit, config_error, grant_error, screen_matched, schema_violation, EventType,
  started, injection_detected, transient_error, output_mode_fallback, tool_call, pii_redacted,
  cost_incomplete, job_keyed,
}
use sleeper_service.Models.Memory.{MemoryVersion, memory_keyed}
use sleeper_service.State.{Db, AlertEvent, add_event}
use sleeper_service.Services.{Services, Usage, Trace, screen}
use sleeper_service.Hooks.{injection_screen_enabled, pii_redaction_enabled}
use sleeper_service.Hooks.Redact.{redact_pii}
use sleeper_service.Alerts.{notify}
use sleeper_service.Spending.{month_spend}
use sleeper_service.Memory.{memory_enabled, approval_required, latest_memory, write_memory}
use Finalize.{Finish, finalize, with_error, handle_cancellation}
use Loop.{run_nodes, judge, Verdict, finish, transient, fallback, interrupted}
use Start.{Rows, rows_of, is_runnable, start}
use Post.{settle, post_hooks, has_schema}

-- How a call ends: it returns, raises TransientJobError, calls itself for prompted output, lets the cancellation
-- through, or fails for want of a row.
pub data Attempt : Type 0 where
  returned : Attempt
  raised_transient : String → Attempt
  falls_back : Attempt
  raised_cancelled : Attempt
  no_row : Attempt

-- `min(timeout_s, sync_job_timeout_s)` where the call is a synchronous one.
abbrev pub timeout_of : Services → AgentVersion → Bool → ℕ
timeout_of s v sync_cap =
    if sync_cap then min v.timeout_s s.settings.sync_job_timeout_s else v.timeout_s

-- The events and the commit that each verdict on the run brings.
pub conclude : Services → Rows → ℕ → Trace → Verdict → Db → Db × Attempt
conclude s r job_id t (finish status output error usage) db =
    (settle s r job_id t usage (post_hooks s r t status output error) db, returned)
conclude s r job_id t (transient message) db =
    (add_event job_id (transient_error message) db, raised_transient message)
conclude s r job_id t fallback db = (add_event job_id output_mode_fallback db, falls_back)
conclude s r job_id t interrupted db = (handle_cancellation s job_id db, raised_cancelled)

-- The run of the model, with what is left of the budget.
unfoldable pub run_model : Services → Bool → Bool → Rows → Option ℕ → ℕ → Db → Db × Attempt
unfolding conclude
run_model s prompted sync_cap r budget job_id db =
    let (after, t) = s.run prompted job_id db in
    let timeout_s = timeout_of s r.version sync_cap in
    let stop = run_nodes s.price r.model.name budget timeout_s t.nodes t.ended_at t.ending in
    conclude s r job_id t (judge (has_schema r.version && not prompted) timeout_s stop) after

-- The injection screen, for the text that the job brings with it.
screen_job : Services → Rows → Job → Db → Option Flag
screen_job s r job db =
    if injection_screen_enabled r.tenant.settings r.agent.options
    then screen s r.tenant.settings (s.untrusted db r.tenant job)
    else none

-- From the job that runs: the checks of its configuration and of its grants, the screen, and the run.
unfoldable pub run_started : Services → Bool → Bool → Rows → Option ℕ → ℕ → Job → Db → Db × Attempt
unfolding run_model screen_job
run_started s prompted sync_cap r budget job_id job db =
    elim (s.config_error r.model r.version r.agent) [
      | some message ↦ (finalize s job_id failed (with_error (config_error message)) db, returned)
      | none ↦ elim (s.grant_error db r.agent r.version job) [
        | some message ↦ (finalize s job_id failed (with_error (grant_error message)) db, returned)
        | none ↦ elim (screen_job s r job db) [
          | some flag ↦ (
            finalize s job_id rejected (with_error (screen_matched flag))
                (add_event job_id (injection_detected flag) db),
            returned,
          )
          | none ↦ run_model s prompted sync_cap r budget job_id db
        ]
      ]
    ]

-- The pre-flight on the month's budget, and what is left of it.
unfoldable pub run_rows : Services → Bool → Bool → Rows → ℕ → Job → Db → Db × Attempt
unfolding run_started
run_rows s prompted sync_cap r job_id job db = elim r.agent.spending_limit [
  | none ↦ run_started s prompted sync_cap r none job_id job (start r job_id db)
  | some limit ↦
      let spend = month_spend db r.agent.id in
      if leb limit spend
      then (
        notify s.permitted r.agent.id AlertEvent.budget
            (finalize s job_id budget_exceeded (with_error (monthly_limit spend limit)) db),
        returned,
      )
      else run_started s prompted sync_cap r (some (limit - spend)) job_id job (start r job_id db)
]

unfoldable pub execute_once : Services → Bool → Bool → ℕ → Db → Db × Attempt
unfolding run_rows
execute_once s prompted sync_cap job_id db = elim (find job_id db.jobs) [
  | none ↦ (db, returned)
  | some job ↦
      if is_runnable job.status
      then elim (rows_of db job) [
        | none ↦ (db, no_row)
        | some r ↦ run_rows s prompted sync_cap r job_id job db
      ]
      else (db, returned)
]

fall_back : Services → Bool → ℕ → Db → Attempt → Db × Attempt
fall_back s sync_cap job_id db falls_back = execute_once s true sync_cap job_id db
fall_back s sync_cap job_id db attempt = (db, attempt)

-- `execute_job` calls itself once more, for prompted output.
unfoldable pub execute_job : Services → Bool → ℕ → Db → Db × Attempt
unfolding execute_once fall_back
execute_job s sync_cap job_id db =
    let (after, attempt) = execute_once s false sync_cap job_id db in
    fall_back s sync_cap job_id after attempt

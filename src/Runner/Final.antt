-- ===== src/Runner/Final.antt =====
-- The statuses that the runner gives to a job: each verdict on a run and each post-hook gives a final one.
use sleeper_service.Base.{
  ℕ, ◌≡◌, refl, arith, inl, inr, Bool, true, false, Option, some, List, [], ◌∷◌, ◌&&◌, not,
}
use sleeper_service.Base.Tests.{Bool-cases, Option-cases, ◌==◌}
use sleeper_service.Base.Text.{Text}
use sleeper_service.Models.Json.{Value}
use sleeper_service.Models.Agents.{Agent, AgentVersion}
use sleeper_service.Models.Jobs.{Job, JobStatus, budget_exceeded, JobError, job_keyed}
use sleeper_service.State.{Db, AlertEvent}
use sleeper_service.Services.{
  Services, Trace, Ending, answered, model_http_error, unexpected_behavior,
}
use sleeper_service.Alerts.Frame.{jobs-notify}
use sleeper_service.Memory.{approval_required}
use sleeper_service.Memory.Frame.{jobs-write_memory}
use sleeper_service.Runner.Finalize.{Finish, finish_row, charge}
use sleeper_service.Runner.Loop.{
  is_transient_status, Stop, timed_out, crossed, ended, judge, Verdict, finish, fallback,
}
use sleeper_service.Runner.Start.{Rows, is_runnable}
use sleeper_service.Runner.Post.{
  Outcome, post_hooks, check_schema, redact, hand_off, propose, alert_budget, run_events, last,
  is_succeeded,
}

-- A job with this status is not run again, unless someone puts it back.
abbrev pub is_final : JobStatus → Bool
is_final status = not (is_runnable status)

abbrev pub Ends : Bool → Verdict → Type 0
Ends may_fall_back (finish status output error usage) = is_final status ≡ true
Ends may_fall_back fallback = may_fall_back ≡ true
Ends may_fall_back _ = Unit

and_right : (a b : Bool) → (a && b) ≡ true → b ≡ true
and_right a b h = ground arith

pub judge-Ends :
    (may_fall_back : Bool) (timeout_s : ℕ) (stop : Stop)
    → Ends may_fall_back (judge may_fall_back timeout_s stop)
unfolding judge
judge-Ends m t timed_out = refl
judge-Ends m t (crossed cost left usage) = refl
judge-Ends m t (ended (answered raw usage)) = refl
judge-Ends m t (ended Ending.usage_limit_exceeded) = refl
judge-Ends m t (ended (model_http_error code forced message)) =
    elim (Bool-cases (is_transient_status code)) [
      | inl e ↦ rw e tt
      | inr e ↦ elim (Bool-cases ((code == 400 && forced) && m)) [
        | inl b ↦ rw (e, b) (and_right (code == 400 && forced) m b)
        | inr b ↦ rw (e, b) refl
      ]
    ]
judge-Ends m t (ended (unexpected_behavior true message)) = tt
judge-Ends m t (ended (unexpected_behavior false message)) = refl
judge-Ends m t (ended (Ending.transport_error message)) = tt
judge-Ends m t (ended Ending.cancelled) = tt
judge-Ends m t (ended (Ending.raised message)) = refl

-- The hooks turn one final status into another.
final-check_schema :
    (s : Services) (v : AgentVersion) (r : Outcome)
    → is_final r.status ≡ true
    → is_final (check_schema s v r).status ≡ true
unfolding check_schema
final-check_schema s v r h = ground arith

final-redact :
    (s : Services) (a : Agent) (r : Outcome)
    → is_final r.status ≡ true
    → is_final (redact s a r).status ≡ true
unfolding redact
final-redact s a r h = ground arith

final-hand_off :
    (is : List ℕ) (r : Outcome) → is_final r.status ≡ true → is_final (hand_off is r).status ≡ true
unfolding hand_off
final-hand_off [] r h = h
final-hand_off (i ∷ is) r h = ground arith

pub final-post_hooks :
    (s : Services) (r : Rows) (t : Trace) (status : JobStatus) (o : Option Value)
    (e : Option JobError)
    → is_final status ≡ true
    → is_final (post_hooks s r t status o e).status ≡ true
unfolding post_hooks
final-post_hooks s r t status o e h =
    let first : Outcome = record {
      status = status;
      output = o;
      error = e;
      events = run_events r.model t;
    } in
    let second = check_schema s r.version first in
    final-hand_off t.escalation_ids (redact s r.agent second)
      (final-redact s r.agent second (final-check_schema s r.version first h))

pub jobs-propose :
    (s : Services) (a : Agent) (job_id : ℕ) (ps : List Text) (r : Outcome) (db : Db)
    → (propose s a job_id ps r db).jobs ≡ db.jobs
unfolding propose
jobs-propose s a job_id ps r db = elim (Bool-cases (is_succeeded r.status)) [
  | inr b ↦ rw (propose, b) refl
  | inl b ↦ elim (Option-cases (last ps)) [
    | inl e ↦ rw (propose, b, e) refl
    | inr (t, e) ↦
        rw (propose, b, e)
          (jobs-write_memory s a.id t (some job_id) true (approval_required a.options) db)
  ]
]

pub jobs-alert_budget :
    (s : Services) (a : Agent) (status : JobStatus) (db : Db)
    → (alert_budget s a status db).jobs ≡ db.jobs
jobs-alert_budget s a budget_exceeded db = jobs-notify s.permitted a.id AlertEvent.budget db
jobs-alert_budget s a JobStatus.queued db = refl
jobs-alert_budget s a JobStatus.running db = refl
jobs-alert_budget s a JobStatus.succeeded db = refl
jobs-alert_budget s a JobStatus.escalated db = refl
jobs-alert_budget s a JobStatus.failed db = refl
jobs-alert_budget s a JobStatus.rejected db = refl
jobs-alert_budget s a JobStatus.iteration_limit db = refl
jobs-alert_budget s a JobStatus.timeout db = refl
jobs-alert_budget s a JobStatus.dead_letter db = refl

pub status-finish_row :
    (s : Services) (db : Db) (status : JobStatus) (f : Finish) (j : Job)
    → ((finish_row s db status f j).status ≡ status)
      × ((finish_row s db status f j).parent_job_id ≡ j.parent_job_id)
unfolding charge
status-finish_row s db status f j = ground arith

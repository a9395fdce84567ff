-- ===== src/Runner/Finalize.antt =====
-- The bookkeeping of runtime/runner.py: `_calc_cost`, `_finalize`, `mark_job`, `_handle_cancellation`.
use sleeper_service.Base.{
  ℕ, String, Bool, true, false, Option, none, some, List, [], ◌∷◌, ◌++◌, ◌&&◌, not,
}
use sleeper_service.Base.Tests.{str_eq, if◌then◌else◌}
use sleeper_service.Base.Table.{find, modify}
use sleeper_service.Models.Json.{Value}
use sleeper_service.Models.Agents.{Model}
use sleeper_service.Models.Jobs.{
  Job, JobStatus, queued, failed, dead_letter, timeout, iteration_limit, JobError, cancelled_parent,
  EventType, finished, cost_unpriced, requeued, job_keyed,
}
use sleeper_service.State.{Db, add_event}
use sleeper_service.Services.{Services, Usage}
use sleeper_service.Alerts.{check_error_rate}

-- The cost, and whether the model has a price.
abbrev pub calc_cost : (Usage → String → Option ℕ) → Usage → String → ℕ × Bool
calc_cost price usage model_name = elim (price usage model_name) [
  | none ↦ (0, false)
  | some cost ↦ (cost, true)
]

-- The keyword arguments of `_finalize`: `model` stands for `model_name` and `provider`, which go together.
pub record Finish : Type 0 where
  pub output : Option Value
  pub error : Option JobError
  pub usage : Option Usage
  pub model : Option Model
  pub cost_override : Option ℕ
  pub extra_events : List EventType

-- A finish with an error alone.
abbrev pub with_error : JobError → Finish
with_error e = record {
  output = none;
  error = some e;
  usage = none;
  model = none;
  cost_override = none;
  extra_events = [];
}

-- What the provider billed beats what the table gives.
abbrev pub final_cost : Services → Usage → Model → Option ℕ → ℕ × Bool
final_cost s usage model none = calc_cost s.price usage model.name
final_cost s usage model (some cost) = (cost, true)

unfoldable pub charge : Services → Finish → Job → Job
charge s f job = elim f.usage [
  | none ↦ job
  | some usage ↦ elim f.model [
    | none ↦ job
    | some model ↦ record job {
      tokens_in = usage.input_tokens;
      tokens_out = usage.output_tokens;
      cost = (final_cost s usage model f.cost_override).0;
    }
  ]
]

unfoldable pub unpriced_events : Services → Finish → List EventType
unpriced_events s f = elim f.usage [
  | none ↦ []
  | some usage ↦ elim f.model [
    | none ↦ []
    | some model ↦
        if not (final_cost s usage model f.cost_override).1 && not (str_eq model.provider "test")
        then cost_unpriced ∷ []
        else []
  ]
]

abbrev pub add_events : ℕ → List EventType → Db → Db
add_events job_id [] db = db
add_events job_id (e ∷ es) db = add_events job_id es (add_event job_id e db)

abbrev pub alerts_error_rate : JobStatus → Bool
alerts_error_rate failed = true
alerts_error_rate dead_letter = true
alerts_error_rate timeout = true
alerts_error_rate iteration_limit = true
alerts_error_rate _ = false

abbrev pub finish_row : Services → Db → JobStatus → Finish → Job → Job
unfolding charge
finish_row s db status f job =
    charge s f (record job {
      status = status;
      output = f.output;
      error = f.error;
      finished_at = some db.now;
    })

abbrev pub finish_events : Services → JobStatus → Finish → List EventType
unfolding unpriced_events
finish_events s status f = unpriced_events s f ++ (f.extra_events ++ finished status f.error ∷ [])

-- The commit, before the alert on the error rate.
abbrev pub finish_job : Services → ℕ → JobStatus → Finish → Db → Db
finish_job s job_id status f db =
    add_events job_id (finish_events s status f)
      (record db { jobs = modify job_id (finish_row s db status f) db.jobs })

unfoldable pub finalize : Services → ℕ → JobStatus → Finish → Db → Db
finalize s job_id status f db = elim (find job_id db.jobs) [
  | none ↦ db
  | some job ↦
      let done = finish_job s job_id status f db in
      if not job.is_eval && alerts_error_rate status
      then check_error_rate s.permitted job.agent_id done
      else done
]

unfoldable pub mark_job : Services → ℕ → JobStatus → JobError → Db → Db
unfolding finalize
mark_job s job_id status error db = finalize s job_id status (with_error error) db

abbrev pub requeue : Job → Job
requeue job = record job { status = queued; started_at = none }

unfoldable pub handle_cancellation : Services → ℕ → Db → Db
unfolding finalize
handle_cancellation s job_id db = elim (find job_id db.jobs) [
  | none ↦ db
  | some job ↦ elim job.parent_job_id [
    | none ↦ add_event job_id requeued (record db { jobs = modify job_id requeue db.jobs })
    | some parent ↦ finalize s job_id failed (with_error cancelled_parent) db
  ]
]

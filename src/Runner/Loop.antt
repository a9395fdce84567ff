-- ===== src/Runner/Loop.antt =====
-- The guarded run of runtime/runner.py: the wall clock, the budget between two model calls, and what each way to
-- end makes of the job.
use sleeper_service.Base.{ℕ, String, Bool, Option, none, some, List, [], ◌∷◌, ◌&&◌, ◌||◌}
use sleeper_service.Base.Tests.{leb, ◌==◌, if◌then◌else◌}
use sleeper_service.Models.Json.{Value, object, end, field}
use sleeper_service.Models.Jobs.{
  JobStatus, succeeded, failed, timeout, budget_exceeded, iteration_limit, JobError, midrun_limit,
  wall_clock, request_limit, http_status, model_behavior, other_exception,
}
use sleeper_service.Services.{
  Usage, Node, Ending, answered, usage_limit_exceeded, model_http_error, unexpected_behavior,
  transport_error, cancelled, raised,
}
use sleeper_service.Runner.Finalize.{calc_cost}

-- How the `async with asyncio.timeout(...)` block ends.
pub data Stop : Type 0 where
  timed_out : Stop
  crossed : ℕ → ℕ → Usage → Stop
  ended : Ending → Stop

-- The loop over the nodes. The budget is what is left of the month's limit; without one the guard is passed over.
unfoldable pub run_nodes :
    (Usage → String → Option ℕ) → String → Option ℕ → ℕ → List Node → ℕ → Ending → Stop
run_nodes price model_name budget timeout_s [] ended_at ending =
    if leb timeout_s ended_at then timed_out else ended ending
run_nodes price model_name budget timeout_s (n ∷ ns) ended_at ending =
    let rest = run_nodes price model_name budget timeout_s ns ended_at ending in
    if leb timeout_s n.elapsed then timed_out else elim budget [
      | none ↦ rest
      | some left ↦
          let cost = (calc_cost price n.usage model_name).0 in
          if leb left cost then crossed cost left n.usage else rest
    ]

-- What is known of the job after the block: it is to be finished, or a retry, the fallback or the canceller
-- takes over.
pub data Verdict : Type 0 where
  finish : JobStatus → Option Value → Option JobError → Option Usage → Verdict
  transient : String → Verdict
  fallback : Verdict
  interrupted : Verdict

-- `raw if isinstance(raw, dict) else {"text": raw}`
abbrev pub as_output : Value → Value
as_output (object fs) = object fs
as_output raw = object (field "text" raw end)

abbrev pub is_transient_status : ℕ → Bool
is_transient_status code = code == 429 || leb 500 code

-- The `except` clauses. `forced` says that the body of the error names `tool_choice`, `upstream` that the message
-- is that of a failed upstream; `may_fall_back` that the version has an output schema and that the output was asked
-- for by a tool.
unfoldable pub judge : Bool → ℕ → Stop → Verdict
judge may_fall_back timeout_s timed_out = finish timeout none (some (wall_clock timeout_s)) none
judge may_fall_back timeout_s (crossed cost budget usage) =
    finish budget_exceeded none (some (midrun_limit cost budget)) (some usage)
judge may_fall_back timeout_s (ended (answered raw usage)) =
    finish succeeded (some (as_output raw)) none (some usage)
judge may_fall_back timeout_s (ended usage_limit_exceeded) =
    finish iteration_limit none (some request_limit) none
judge may_fall_back timeout_s (ended (model_http_error code forced message)) =
    if is_transient_status code
    then transient message
    else if (code == 400 && forced) && may_fall_back
    then fallback
    else finish failed none (some (http_status code)) none
judge may_fall_back timeout_s (ended (unexpected_behavior upstream message)) =
    if upstream then transient message else finish failed none (some (model_behavior message)) none
judge may_fall_back timeout_s (ended (transport_error message)) = transient message
judge may_fall_back timeout_s (ended cancelled) = interrupted
judge may_fall_back timeout_s (ended (raised message)) =
    finish failed none (some (other_exception message)) none

-- ===== src/Runner/Post.antt =====
-- What runtime/runner.py does after a run: the post-hooks, and the commit of the outcome.
use sleeper_service.Base.{
  ℕ, Bool, true, false, Option, none, some, List, [], ◌∷◌, ◌++◌, ◌&&◌, not, map,
}
use sleeper_service.Base.Tests.{◌==◌, str_eq, if◌then◌else◌}
use sleeper_service.Base.Text.{Text}
use sleeper_service.Models.Json.{
  Value, number, array, object, null, Items, nil, cons, end, field, pos,
}
use sleeper_service.Models.Auth.{tenant_keyed, team_keyed}
use sleeper_service.Models.Agents.{
  Agent, AgentVersion, Model, agent_keyed, version_keyed, model_keyed,
}
use sleeper_service.Models.Jobs.{
  JobStatus, succeeded, escalated, failed, budget_exceeded, JobError, schema_violation, EventType,
  tool_call, pii_redacted, cost_incomplete, job_keyed,
}
use sleeper_service.Models.Memory.{memory_keyed}
use sleeper_service.State.{Db, AlertEvent}
use sleeper_service.Services.{Services, Usage, Trace}
use sleeper_service.Hooks.{pii_redaction_enabled}
use sleeper_service.Hooks.Redact.{redact_pii}
use sleeper_service.Alerts.{notify}
use sleeper_service.Memory.{approval_required, write_memory}
use sleeper_service.Runner.Finalize.{Finish, finalize}
use sleeper_service.Runner.Start.{Rows}

abbrev pub has_schema : AgentVersion → Bool
has_schema v = elim v.output_schema [
  | none ↦ false
  | some schema ↦ elim schema [
    | null ↦ false
    | object fs ↦ elim fs [ end ↦ false | field k w rest ↦ true ]
    | _ ↦ true
  ]
]

-- What the post-hooks pass on to one another.
pub record Outcome : Type 0 where
  pub status : JobStatus
  pub output : Option Value
  pub error : Option JobError
  pub events : List EventType

abbrev pub is_succeeded : JobStatus → Bool
is_succeeded succeeded = true
is_succeeded _ = false

abbrev pub value_of : Option Value → Value
value_of none = null
value_of (some v) = v

unfoldable pub check_schema : Services → AgentVersion → Outcome → Outcome
check_schema s v r =
    if is_succeeded r.status && has_schema v
    then elim (s.schema_error (value_of r.output) (value_of v.output_schema)) [
      | none ↦ r
      | some message ↦ record r {
        status = failed;
        error = some (schema_violation message);
        output = none;
      }
    ]
    else r

unfoldable pub redact : Services → Agent → Outcome → Outcome
redact s agent r =
    if is_succeeded r.status && pii_redaction_enabled agent.options
    then (let (output, count) = redact_pii s.subn (value_of r.output) in
        record r {
          output = some output;
          events = r.events ++ (if count == 0 then [] else pii_redacted count ∷ []);
        })
    else r

abbrev pub ids : List ℕ → Items
ids [] = nil
ids (i ∷ is) = cons (number (pos i)) (ids is)

unfoldable pub hand_off : List ℕ → Outcome → Outcome
hand_off [] r = r
hand_off (i ∷ is) r =
    if is_succeeded r.status
    then record r {
      status = escalated;
      output = some (
          object (
            field "work_item_ids" (array (ids (i ∷ is))) (field "result" (value_of r.output) end)));
    }
    else r

abbrev pub last : List Text → Option Text
last [] = none
last (t ∷ []) = some t
last (t ∷ u ∷ us) = last (u ∷ us)

unfoldable pub propose : Services → Agent → ℕ → List Text → Outcome → Db → Db
propose s agent job_id proposals r db =
    if is_succeeded r.status
    then elim (last proposals) [
      | none ↦ db
      | some content ↦
          (write_memory s agent.id content (some job_id) true (approval_required agent.options)
            db).0
    ]
    else db

abbrev pub looks_up_cost : Model → Trace → Bool
looks_up_cost model t = str_eq model.provider "openrouter" && t.has_messages

abbrev pub cost_override : Model → Trace → Option ℕ
cost_override model t = if looks_up_cost model t then t.lookup_total else t.decided_cost

abbrev pub run_events : Model → Trace → List EventType
run_events model t =
    map tool_call t.tool_calls
    ++ (if looks_up_cost model t && not (t.lookup_missing == 0)
        then cost_incomplete t.lookup_missing ∷ []
        else [])

-- The post-hooks up to the hand-off.
unfoldable pub post_hooks :
    Services → Rows → Trace → JobStatus → Option Value → Option JobError → Outcome
unfolding check_schema redact hand_off
post_hooks s r t status output error = hand_off t.escalation_ids (
    redact s r.agent (
      check_schema s r.version (record {
        status = status;
        output = output;
        error = error;
        events = run_events r.model t;
      })))

-- The alert on the budget that follows a run it stopped.
abbrev pub alert_budget : Services → Agent → JobStatus → Db → Db
alert_budget s agent budget_exceeded db = notify s.permitted agent.id AlertEvent.budget db
alert_budget s agent _ db = db

-- The keyword arguments of the call of `_finalize`.
abbrev pub finish_of : Rows → Trace → Option Usage → Outcome → Finish
finish_of r t usage result = record {
  output = result.output;
  error = result.error;
  usage = usage;
  model = some r.model;
  cost_override = cost_override r.model t;
  extra_events = result.events;
}

unfoldable pub settle : Services → Rows → ℕ → Trace → Option Usage → Outcome → Db → Db
unfolding propose
settle s r job_id t usage result db = alert_budget s r.agent result.status (
    finalize s job_id result.status (finish_of r t usage result)
      (propose s r.agent job_id t.memory_proposals result db))

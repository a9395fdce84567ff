-- ===== src/Jobs.antt =====
-- api/v1/jobs.py: the submission of a job, and the retry of one that failed. The proofs are in the modules below.
pub mod Create
pub mod Handlers
pub mod Submit
mod Tests
use sleeper_service.Base.{
  ℕ, suc, String, Bool, true, false, Option, none, some, List, [], ◌∷◌, ◌++◌, ◌&&◌, ◌||◌, not,
}
use sleeper_service.Base.Tests.{◌==◌, str_eq, if◌then◌else◌}
use sleeper_service.Base.Table.{find, find_by, modify}
use sleeper_service.Base.Result.{
  Result, ok, err, ◌>>=◌, ◌>>◌, guard, or_raise, not_found, forbidden, conflict, unprocessable,
}
use sleeper_service.Models.Json.{Value}
use sleeper_service.Models.Auth.{KeyScope, Tenant, tenant_keyed}
use sleeper_service.Models.Agents.{Agent, AgentVersion, VersionAlias, version_keyed}
use sleeper_service.Models.Jobs.{
  Job, JobStatus, queued, failed, timeout, dead_letter, budget_exceeded, monthly_limit,
  transient_provider, submitted, retried, File, job_keyed, file_keyed,
}
use sleeper_service.State.{Db, AlertEvent, run_job, deliver_callback, add_event, enqueue}
use sleeper_service.Services.{Services}
use sleeper_service.Access.{Principal, user, invoke, is_some, get_agent_for}
use sleeper_service.Alerts.{notify}
use sleeper_service.Spending.{budget_exhausted}
use sleeper_service.Runner.Finalize.{mark_job}
use sleeper_service.Runner.{Attempt, returned, raised_transient, execute_job}

-- The keyword arguments of `create_job`, but for `sync`.
pub record Order : Type 0 where
  pub context : Value
  pub callback_url : Option String
  pub user_ctx : Option Value
  pub auth_ctx : Option Value
  pub idempotency_key : Option String

abbrev pub same_key : String → Option String → Bool
same_key k none = false
same_key k (some j) = str_eq j k

abbrev pub has_key : ℕ → String → Job → Bool
has_key agent_id k j = j.agent_id == agent_id && same_key k j.idempotency_key

-- The job of the agent with this idempotency key; without a key no job is looked for, and none is in the way.
abbrev pub existing : ℕ → Option String → List Job → Option Job
existing agent_id none jobs = none
existing agent_id (some k) jobs = find_by (has_key agent_id k) jobs

abbrev pub new_job : Db → Agent → AgentVersion → Order → Job
new_job db agent version o = record {
  id = db.next_id;
  agent_id = agent.id;
  agent_version_id = version.id;
  memory_version_id = none;
  tenant_prompt_version_id = none;
  team_prompt_version_id = none;
  parent_job_id = none;
  status = queued;
  payload = o.context;
  output = none;
  error = none;
  tokens_in = 0;
  tokens_out = 0;
  cost = 0;
  callback_url = o.callback_url;
  user_ctx = o.user_ctx;
  auth_ctx = o.auth_ctx;
  idempotency_key = o.idempotency_key;
  is_eval = false;
  created_at = db.now;
  started_at = none;
  finished_at = none;
}

abbrev pub add_job : Job → Db → Db
add_job j db = record db { jobs = db.jobs ++ j ∷ []; next_id = suc db.next_id }

abbrev pub limit_of : Agent → ℕ
limit_of agent = elim agent.spending_limit [ none ↦ 0 | some limit ↦ limit ]

-- The pre-flight on the budget: a refused job is marked and not enqueued.
pre_flight : Services → Agent → Bool → ℕ → Db → Db
pre_flight s agent sync job_id db = elim (budget_exhausted db agent) [
  | some spend ↦
      notify s.permitted agent.id AlertEvent.budget
        (mark_job s job_id budget_exceeded (monthly_limit spend (limit_of agent)) db)
  | none ↦ if sync then db else enqueue (run_job job_id) db
]

-- The job that the flush has added, with its event.
abbrev pub added : Agent → AgentVersion → Order → Bool → Db → Db
added agent version o sync db =
    add_event db.next_id (submitted sync) (add_job (new_job db agent version o) db)

-- `race` gives what other transactions have committed between the look-up of the key and the flush. The unique
-- constraint on an agent's keys makes the flush fail where that has added the key, and the winner is returned.
unfoldable pub create_job :
    Services → (Db → Db) → Agent → AgentVersion → Order → Bool → Db → Result (Db × ℕ × Bool)
unfolding pre_flight
create_job s race agent version o sync db =
    if is_some agent.archived_at
    then err conflict
    else elim (existing agent.id o.idempotency_key db.jobs) [
      | some job ↦ ok (db, job.id, true)
      | none ↦
          let raced = race db in
          elim (existing agent.id o.idempotency_key raced.jobs) [
            | some job ↦ ok (raced, job.id, true)
            | none ↦ ok (
              pre_flight s agent sync raced.next_id (added agent version o sync raced),
              raced.next_id,
              false,
            )
          ]
    ]

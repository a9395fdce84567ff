-- ===== src/Runner/Start.antt =====
-- How runtime/runner.py starts a job: its rows, and what it pins on the job.
use sleeper_service.Base.{ℕ, Bool, true, false, Option, none, some}
use sleeper_service.Base.Tests.{if◌then◌else◌}
use sleeper_service.Base.Table.{find, modify}
use sleeper_service.Models.Auth.{Tenant, Team, tenant_keyed, team_keyed}
use sleeper_service.Models.Agents.{
  Agent, AgentVersion, Model, agent_keyed, version_keyed, model_keyed,
}
use sleeper_service.Models.Jobs.{Job, JobStatus, queued, running, started, job_keyed}
use sleeper_service.Models.Memory.{memory_keyed}
use sleeper_service.State.{Db, add_event}
use sleeper_service.Prompts.{live_version_id}
use sleeper_service.Memory.{memory_enabled, latest_memory}

-- `do` blocks over optional rows.
infixl 5 ◌>>=◌
abbrev ◌>>=◌ {ℓ κ} : {A : Type ℓ} {B : Type κ} → Option A → (A → Option B) → Option B
none >>= f = none
some x >>= f = f x

-- The rows that the job refers to; the foreign keys promise them.
pub record Rows : Type 0 where
  pub agent : Agent
  pub version : AgentVersion
  pub tenant : Tenant
  pub team : Team
  pub model : Model

unfoldable pub rows_of : Db → Job → Option Rows
rows_of db job = do
  agent ← find job.agent_id db.agents
  version ← find job.agent_version_id db.versions
  tenant ← find agent.tenant_id db.tenants
  team ← find agent.team_id db.teams
  model ← find version.model_id db.models
  some (record { agent = agent; version = version; tenant = tenant; team = team; model = model })

abbrev pub is_runnable : JobStatus → Bool
is_runnable queued = true
is_runnable running = true
is_runnable _ = false

abbrev pub is_queued : JobStatus → Bool
is_queued queued = true
is_queued _ = false

-- The memory that the job is pinned to from here on.
abbrev pub pin_memory : Db → Agent → Job → Job
pin_memory db agent job =
    if memory_enabled agent.options
    then elim job.memory_version_id [
      | some i ↦ job
      | none ↦ elim (latest_memory db agent.id) [
        | none ↦ job
        | some v ↦ record job { memory_version_id = some v.id }
      ]
    ]
    else job

abbrev pub pin_prompts : Db → Rows → Job → Job
pin_prompts db r job =
    if is_queued job.status
    then record job {
      tenant_prompt_version_id =
          live_version_id (record { tenant_id = r.tenant.id; team_id = none }) db;
      team_prompt_version_id =
          live_version_id (record { tenant_id = r.team.tenant_id; team_id = some r.team.id }) db;
    }
    else job

abbrev pub start_row : Db → Rows → Job → Job
start_row db r job = record (pin_prompts db r (pin_memory db r.agent job)) {
  status = running;
  started_at = some db.now;
}

-- The commit at which the job runs.
abbrev pub start : Rows → ℕ → Db → Db
start r job_id db =
    add_event job_id started (record db { jobs = modify job_id (start_row db r) db.jobs })

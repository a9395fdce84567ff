-- ===== src/State.antt =====
-- The state that the components share: the tables of the database, the arq queue, the alerts in Redis, and the
-- settings of config.py. A commit is the new value of the record; a row's place in its list is its place in the
-- order of creation.
use sleeper_service.Base.{ℕ, String, List, [], ◌∷◌, ◌++◌}
use sleeper_service.Models.Time.{DateTime}
use sleeper_service.Models.Auth.{Tenant, Team}
use sleeper_service.Models.Agents.{Agent, AgentVersion, VersionAlias, Model}
use sleeper_service.Models.Jobs.{Job, JobEvent, EventType, File}
use sleeper_service.Models.Memory.{MemoryVersion, PromptVersion, Feedback}
use sleeper_service.Models.Work.{WorkItem}
use sleeper_service.Models.Evals.{EvalCase, EvalRun}
use sleeper_service.Models.Events.{EventSource, ProviderCred}

-- The functions that are enqueued, with the id of their row.
pub data Task : Type 0 where
  run_job deliver_callback fold_feedback run_eval : ℕ → Task

pub data AlertEvent : Type 0 where
  budget dead_letter callback_failed error_rate eval_regression human_attention : AlertEvent

-- The key in Redis: the agent and the event, or the work item.
pub data AlertKey : Type 0 where
  agent_event : ℕ → AlertEvent → AlertKey
  work_item : ℕ → AlertKey

pub record LiveKey : Type 0 where
  pub key : AlertKey
  pub expires : ℕ

pub record Alert : Type 0 where
  pub key : AlertKey
  pub event : AlertEvent
  pub urls : List String

pub record NotifChannel : Type 0 where
  pub team_id : ℕ
  pub apprise_url : String
  pub events : List AlertEvent

pub record Settings : Type 0 where
  pub job_max_tries : ℕ
  pub callback_max_tries : ℕ
  pub sync_job_timeout_s : ℕ
  pub max_delegation_depth : ℕ
  pub memory_max_chars : ℕ

pub record Db : Type 0 where
  pub tenants : List Tenant
  pub teams : List Team
  pub agents : List Agent
  pub versions : List AgentVersion
  pub aliases : List VersionAlias
  pub models : List Model
  pub files : List File
  pub jobs : List Job
  pub events : List JobEvent
  pub memory_versions : List MemoryVersion
  pub prompt_versions : List PromptVersion
  pub work_items : List WorkItem
  pub feedback : List Feedback
  pub eval_cases : List EvalCase
  pub eval_runs : List EvalRun
  pub channels : List NotifChannel
  pub event_sources : List EventSource
  pub provider_creds : List ProviderCred
  pub next_id : ℕ
  pub now : DateTime
  pub clock : ℕ
  pub queue : List Task
  pub live_keys : List LiveKey
  pub sent : List Alert

-- `db.add(JobEvent(job_id=..., type=..., data=...))`
abbrev pub add_event : ℕ → EventType → Db → Db
add_event job_id type db = record db {
  events = db.events ++ record { job_id = job_id; type = type } ∷ [];
}

-- `await pool.enqueue_job(...)`
abbrev pub enqueue : Task → Db → Db
enqueue task db = record db { queue = db.queue ++ task ∷ [] }

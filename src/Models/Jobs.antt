-- ===== src/Models/Jobs.antt =====
-- The tables of jobs, of their audit events and of payload files. A message is a value of a data type with
-- a constructor for each text that the code writes, over the values that the text interpolates.
use sleeper_service.Base.{ℕ, String, Bool, Option}
use sleeper_service.Base.Table.{Keyed}
use sleeper_service.Models.Json.{Value}
use sleeper_service.Models.Time.{DateTime}

-- Why content is refused: a rule matched, the time was over at a rule, or the classifier's verdict.
pub data Flag : Type 0 where
  matched : String → Flag
  screen_timeout : String → Flag
  llm_classifier : Flag

pub data JobStatus : Type 0 where
  queued running succeeded escalated failed rejected budget_exceeded iteration_limit timeout :
      JobStatus
  dead_letter : JobStatus

pub data JobError : Type 0 where
  monthly_limit : ℕ → ℕ → JobError
  midrun_limit : ℕ → ℕ → JobError
  config_error grant_error : String → JobError
  screen_matched : Flag → JobError
  wall_clock : ℕ → JobError
  request_limit : JobError
  http_status : ℕ → JobError
  model_behavior : String → JobError
  other_exception : String → JobError
  schema_violation : String → JobError
  cancelled_parent : JobError
  transient_provider : String → JobError
  retries_exhausted : ℕ → String → JobError

pub data EventType : Type 0 where
  submitted : Bool → EventType
  started : EventType
  finished : JobStatus → Option JobError → EventType
  injection_detected : Flag → EventType
  transient_error : String → EventType
  output_mode_fallback : EventType
  tool_call : String → EventType
  pii_redacted : ℕ → EventType
  cost_unpriced : EventType
  cost_incomplete : ℕ → EventType
  requeued retried : EventType
  memory_write_blocked : Flag → EventType
  memory_updated memory_update_pending : ℕ → EventType
  human_escalated human_work_resolved : ℕ → EventType
  callback_delivered : ℕ → EventType
  callback_failed : String → EventType

pub record JobEvent : Type 0 where
  pub job_id : ℕ
  pub type : EventType

pub record Job : Type 0 where
  pub id : ℕ
  pub agent_id : ℕ
  pub agent_version_id : ℕ
  pub memory_version_id : Option ℕ
  pub tenant_prompt_version_id : Option ℕ
  pub team_prompt_version_id : Option ℕ
  pub parent_job_id : Option ℕ
  pub status : JobStatus
  pub payload : Value
  pub output : Option Value
  pub error : Option JobError
  pub tokens_in : ℕ
  pub tokens_out : ℕ
  pub cost : ℕ
  pub callback_url : Option String
  pub user_ctx : Option Value
  pub auth_ctx : Option Value
  pub idempotency_key : Option String
  pub is_eval : Bool
  pub created_at : DateTime
  pub started_at : Option DateTime
  pub finished_at : Option DateTime

pub record File : Type 0 where
  pub id : ℕ
  pub tenant_id : ℕ
  pub object_key : String
  pub size : ℕ
  pub content_type : String
  pub expires_at : Option DateTime

instance abbrev pub job_keyed : Keyed Job
job_keyed = record { key = λ j. j.id }

instance abbrev pub file_keyed : Keyed File
file_keyed = record { key = λ f. f.id }

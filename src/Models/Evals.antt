-- ===== src/Models/Evals.antt =====
-- The tables of eval cases and eval runs.
use sleeper_service.Base.{ℕ, String, Option, List, Bool}
use sleeper_service.Base.Table.{Keyed}
use sleeper_service.Models.Json.{Value, Fields}
use sleeper_service.Models.Jobs.{JobStatus}
use sleeper_service.Models.Time.{DateTime}

pub record EvalCase : Type 0 where
  pub id : ℕ
  pub agent_id : ℕ
  pub name : String
  pub input : Value
  pub checks : List Fields

pub data RunStatus : Type 0 where
  running completed budget_exceeded errored : RunStatus

pub record CaseResult : Type 0 where
  pub case_id : ℕ
  pub case_name : String
  pub job_id : ℕ
  pub job_status : JobStatus
  pub passed : Bool
  pub checks : List Bool

-- The column of the pass rate is `Numeric(5, 4)`: a whole number of ten-thousandths.
pub record EvalRun : Type 0 where
  pub id : ℕ
  pub agent_id : ℕ
  pub agent_version_id : ℕ
  pub memory_version_id : Option ℕ
  pub status : RunStatus
  pub results : List CaseResult
  pub pass_rate : Option ℕ
  pub created_at : DateTime
  pub finished_at : Option DateTime

instance abbrev pub run_keyed : Keyed EvalRun
run_keyed = record { key = λ r. r.id }

instance abbrev pub case_keyed : Keyed EvalCase
case_keyed = record { key = λ c. c.id }

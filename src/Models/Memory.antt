-- ===== src/Models/Memory.antt =====
-- The tables of memory versions, of system prompt versions and of feedback.
use sleeper_service.Base.{ℕ, String, Option, List, Bool, true, false}
use sleeper_service.Base.Table.{Keyed}
use sleeper_service.Models.Json.{ℤ}

pub data MemoryStatus : Type 0 where
  active pending rejected : MemoryStatus

-- A memory document is walked line by line, so its text is a list of code points.
pub record MemoryVersion : Type 0 where
  pub id : ℕ
  pub agent_id : ℕ
  pub version_no : ℕ
  pub content : List ℕ
  pub status : MemoryStatus
  pub source_job_id : Option ℕ

-- `team_id` is none for the prompt of the tenant.
pub record PromptVersion : Type 0 where
  pub id : ℕ
  pub tenant_id : ℕ
  pub team_id : Option ℕ
  pub version_no : ℕ
  pub content : String
  pub created_by : Option ℕ

pub record Feedback : Type 0 where
  pub id : ℕ
  pub job_id : ℕ
  pub vote : ℤ
  pub comment : Option String

abbrev pub is_active : MemoryStatus → Bool
is_active MemoryStatus.active = true
is_active _ = false

abbrev pub is_pending : MemoryStatus → Bool
is_pending MemoryStatus.pending = true
is_pending _ = false

instance abbrev pub memory_keyed : Keyed MemoryVersion
memory_keyed = record { key = λ v. v.id }

instance abbrev pub prompt_keyed : Keyed PromptVersion
prompt_keyed = record { key = λ v. v.id }

instance abbrev pub feedback_keyed : Keyed Feedback
feedback_keyed = record { key = λ f. f.id }

-- ===== src/Models/Work.antt =====
-- The table of the human-work inbox.
use sleeper_service.Base.{ℕ, String, Option}
use sleeper_service.Base.Table.{Keyed}
use sleeper_service.Models.Time.{DateTime}

pub data WorkKind : Type 0 where
  memory_approval human_escalation : WorkKind

pub data WorkStatus : Type 0 where
  unresolved resolved dismissed : WorkStatus

pub data Resolution : Type 0 where
  approved rejected resolved dismissed : Resolution

pub record WorkItem : Type 0 where
  pub id : ℕ
  pub tenant_id : ℕ
  pub team_id : ℕ
  pub agent_id : ℕ
  pub job_id : Option ℕ
  pub memory_version_id : Option ℕ
  pub kind : WorkKind
  pub status : WorkStatus
  pub resolution : Option Resolution
  pub response : Option String
  pub resolved_by_user_id : Option ℕ
  pub resolved_at : Option DateTime

instance abbrev pub work_keyed : Keyed WorkItem
work_keyed = record { key = λ w. w.id }

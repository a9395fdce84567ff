-- ===== src/Models/Agents.antt =====
-- The tables of agents, their versions, aliases and the model registry.
use sleeper_service.Base.{ℕ, String, Option, List}
use sleeper_service.Base.Table.{Keyed}
use sleeper_service.Models.Json.{Value, Fields}
use sleeper_service.Models.Time.{DateTime}

-- Money is a whole number of the finest unit that the database keeps, a millionth of a dollar.
pub record Agent : Type 0 where
  pub id : ℕ
  pub tenant_id : ℕ
  pub team_id : ℕ
  pub name : String
  pub current_version_id : Option ℕ
  pub spending_limit : Option ℕ
  pub options : Fields
  pub archived_at : Option DateTime

pub record AgentVersion : Type 0 where
  pub id : ℕ
  pub agent_id : ℕ
  pub version_no : ℕ
  pub prompt : String
  pub model_id : ℕ
  pub params : Fields
  pub max_iterations : ℕ
  pub timeout_s : ℕ
  pub tool_grants : List Value
  pub data_store_grants : List Value
  pub input_schema : Option Value
  pub output_schema : Option Value
  pub created_by : Option ℕ

pub record VersionAlias : Type 0 where
  pub agent_id : ℕ
  pub alias : String
  pub agent_version_id : ℕ

pub record Model : Type 0 where
  pub id : ℕ
  pub provider : String
  pub name : String
  pub model_string : String

instance abbrev pub agent_keyed : Keyed Agent
agent_keyed = record { key = λ a. a.id }

instance abbrev pub version_keyed : Keyed AgentVersion
version_keyed = record { key = λ v. v.id }

instance abbrev pub model_keyed : Keyed Model
model_keyed = record { key = λ m. m.id }

-- ===== src/Models/Events.antt =====
-- The tables of event sources and of provider credentials.
use sleeper_service.Base.{ℕ, String, Option}
use sleeper_service.Base.Table.{Keyed}
use sleeper_service.Models.Json.{Fields}
use sleeper_service.Models.Auth.{KeyScope}

-- `payload_template` is a JSON object whose texts are templates; `secret_hash` and a credential are only compared.
pub record EventSource : Type 0 where
  pub id : ℕ
  pub tenant_id : ℕ
  pub name : String
  pub target_agent_id : ℕ
  pub payload_template : Fields
  pub secret_hash : ℕ
  pub dedup_key_path : Option String

pub record ProviderCred : Type 0 where
  pub id : ℕ
  pub scope : KeyScope
  pub scope_id : ℕ
  pub provider : String
  pub credentials : String

instance abbrev pub source_keyed : Keyed EventSource
source_keyed = record { key = λ s. s.id }

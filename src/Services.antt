-- ===== src/Services.antt =====
-- What the program calls and does not implement, with the settings of a deployment: the pattern engines, the models
-- behind the classifier and the memory fold, the price table, JSON Schema, the outbound policy's resolver, and one
-- run of an agent's model. Each is a parameter of the functions that use it.
use sleeper_service.Base.{ℕ, String, Bool, Option, List}
use sleeper_service.Base.Text.{Text}
use sleeper_service.Models.Json.{Value, Fields}
use sleeper_service.Models.Auth.{Tenant}
use sleeper_service.Models.Agents.{Agent, AgentVersion, Model}
use sleeper_service.Models.Jobs.{Job}
use sleeper_service.State.{Db, Settings}
use sleeper_service.Models.Jobs.{Flag}
use sleeper_service.Hooks.{Engine, Rule, screen_injection, screen_untrusted}
use sleeper_service.Hooks.Redact.{PiiPattern}

-- The tokens that a run has used so far.
pub record Usage : Type 0 where
  pub input_tokens : ℕ
  pub output_tokens : ℕ

-- How a run of the model ends, when no guard of the runner stops it first.
pub data Ending : Type 0 where
  answered : Value → Usage → Ending
  usage_limit_exceeded : Ending
  model_http_error : ℕ → Bool → String → Ending
  unexpected_behavior : Bool → String → Ending
  transport_error : String → Ending
  cancelled : Ending
  raised : String → Ending

-- A point between two model calls: the seconds since the start of the run, and the usage so far.
pub record Node : Type 0 where
  pub elapsed : ℕ
  pub usage : Usage

-- One run of the agent's model, as far as the guards let it go: its nodes, its end and the time of that, what its
-- tools left behind, the cost that a decision provider reports, and what the aggregator's lookup gives.
pub record Trace : Type 0 where
  pub nodes : List Node
  pub ended_at : ℕ
  pub ending : Ending
  pub tool_calls : List String
  pub escalation_ids : List ℕ
  pub memory_proposals : List Text
  pub decided_cost : Option ℕ
  pub has_messages : Bool
  pub lookup_total : Option ℕ
  pub lookup_missing : ℕ

pub record Services : Type 0 where
  pub settings : Settings
  pub permitted : String → Bool
  pub engine : Engine
  pub builtin_rules : List Rule
  pub screen_timeout : ℕ
  pub classify : String → List Text → Option Bool
  pub subn : PiiPattern → String → String × ℕ
  pub fold_model : String → Text → ℕ → Option Text
  pub price : Usage → String → Option ℕ
  pub schema_error : Value → Value → Option String
  pub config_error : Model → AgentVersion → Agent → Option String
  pub grant_error : Db → Agent → AgentVersion → Job → Option String
  pub untrusted : Db → Tenant → Job → List Text
  pub run : Bool → ℕ → Db → Db × Trace

-- The screen of a tenant's content with both tiers, and with the heuristics alone.
abbrev pub screen : Services → Fields → List Text → Option Flag
screen s = screen_untrusted s.engine s.builtin_rules s.screen_timeout s.classify

abbrev pub heuristics : Services → Fields → List Text → Option Flag
heuristics s = screen_injection s.engine s.builtin_rules s.screen_timeout

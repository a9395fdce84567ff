-- ===== src/Events/Accepted.antt =====
-- What an event that is accepted has shown, and the job that it becomes.
use sleeper_service.Base.{ℕ, Bool, false, none, some, ◌≡◌}
use sleeper_service.Base.Lists.{All}
use sleeper_service.Models.Json.{Fields}
use sleeper_service.Models.Agents.{Agent, AgentVersion, agent_keyed, version_keyed}
use sleeper_service.Models.Events.{EventSource, source_keyed}
use sleeper_service.State.{Db}
use sleeper_service.Services.{Services}
use sleeper_service.Jobs.Create.{Created}
use sleeper_service.Jobs.Handlers.{Policy}
use sleeper_service.Jobs.Submit.{IsFileOf}
use sleeper_service.Events.{JobContext, Formats, render_template, event_order}

module _ (s : Services) (race : Db → Db) (policy : Policy) (f : Formats) (db : Db) where
  -- What `create_job` gives for an event: the job of an earlier delivery with the same key, or a new one.
  abbrev pub IsSubmitted :
      EventSource → Agent → AgentVersion → Fields → JobContext → Db × ℕ × Bool → Type 0
  IsSubmitted source agent version body context r =
      (f.validate (render_template f source.payload_template body) ≡ some context)
      × All (IsFileOf db agent.tenant_id) context.files
      × (agent.archived_at ≡ none)
      × Created s race agent version (event_order f source body context) false db r

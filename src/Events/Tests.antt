-- ===== src/Events/Tests.antt =====
-- Two deliveries of one event to a source of the small deployment.
use sleeper_service.Base.{ℕ, Bool, true, false, some, [], ◌∷◌}
use sleeper_service.Models.Json.{Fields, text, end, field}
use sleeper_service.Models.Agents.{agent_keyed, version_keyed}
use sleeper_service.Models.Events.{EventSource, source_keyed}
use sleeper_service.State.{Db}
use sleeper_service.Models.Jobs.{Job}
use sleeper_service.Jobs.Handlers.{Policy}
use sleeper_service.Events.{Formats}
use sleeper_service.Samples.{db, waiting}

abbrev formats : Formats
formats = record {
  sub = λ f t. t;
  str = λ v. "";
  dumps = λ fs. "{}";
  id_text = λ i. "40";
  hash_key = λ secret. 9;
  validate = λ fs. some (record { prompt = "Price"; files = []; links = [] });
}

abbrev policy : Policy
policy = record { refuses_links = λ t ls. false; refuses_callback = λ t url. false }

abbrev prices : EventSource
prices = record {
  id = 40;
  tenant_id = 1;
  name = "prices";
  target_agent_id = 4;
  payload_template = field "prompt" (text "Price") end;
  secret_hash = 9;
  dedup_key_path = some "id";
}

-- The job of the first delivery.
abbrev delivered : Job
delivered = record waiting { idempotency_key = some "evt:40:e1" }

abbrev event_db : Db
event_db = record db { event_sources = prices ∷ []; jobs = delivered ∷ [] }

abbrev tick : Fields
tick = field "id" (text "e1") end

abbrev answer : Db × ℕ × Bool
answer = (event_db, 7, true)

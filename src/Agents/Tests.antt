-- ===== src/Agents/Tests.antt =====
-- The owner of the team turns the memory of its agent off.
use sleeper_service.Base.{none, some, [], ◌∷◌}
use sleeper_service.Models.Json.{end}
use sleeper_service.Models.Agents.{agent_keyed}
use sleeper_service.State.{Db}
use sleeper_service.Agents.{AgentUpdate, apply_update}
use sleeper_service.Samples.{db, helper}

abbrev forget : AgentUpdate
forget = record { name = some (some "helper"); spending_limit = none; options = some (some end) }

abbrev forgotten : Db
forgotten = record db { agents = apply_update forget helper ∷ [] }

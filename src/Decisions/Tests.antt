-- ===== src/Decisions/Tests.antt =====
-- An agent on a decision model with one question.
use sleeper_service.Base.{true, none, some, [], ◌∷◌}
use sleeper_service.Models.Json.{Fields, text, boolean, field, end}
use sleeper_service.Decisions.{Adapters}

abbrev adapters : Adapters
adapters = record { openai_names = λ q. some (some "urgent" ∷ none ∷ []); jev_valid = λ q. true }

abbrev params : Fields
params = field "questions" (text "Is it urgent?") end

abbrev options : Fields
options = field "memory" (boolean true) end

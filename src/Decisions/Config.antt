-- ===== src/Decisions/Config.antt =====
-- Which configurations of a decision model are accepted.
use sleeper_service.Base.{String, Bool, true, false, Option, none, some, List, [], ◌≡◌, not}
use sleeper_service.Base.Tests.{if◌then◌else◌}
use sleeper_service.Models.Json.{Value, Fields, get}
use sleeper_service.Decisions.{Adapters, ConfigError, has_only, valid_questions, uses_tools}

-- What a decision agent is: questions and nothing else in its params, no grant, no option that gives its model a tool,
-- and no output schema.
pub record Decides (a : Adapters) (model_string : String) (params : Fields)
    (tools stores : List Value) (options : Fields) (schema : Option Value) : Type 0 where
  pub only_questions : has_only "questions" params ≡ true
  pub questions : valid_questions a model_string (get "questions" params) ≡ true
  pub no_tools : tools ≡ []
  pub no_stores : stores ≡ []
  pub no_option : uses_tools options ≡ false
  pub no_schema : schema ≡ none

-- The chain of refusals lets through exactly what passes each of them.
abbrev chain : Bool → Bool → Bool → Bool → Bool → Option ConfigError
chain q v g u s =
    if not q
    then some ConfigError.extra_params
    else if not v
    then some ConfigError.invalid_questions
    else if not g
    then some ConfigError.tools_granted
    else if u
    then some ConfigError.unsupported_options
    else if s
    then some ConfigError.output_schema_set
    else none

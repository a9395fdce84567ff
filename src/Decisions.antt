-- ===== src/Decisions.antt =====
-- `validate_decision_config` of runtime/decisions.py and `parse_questions` of runtime/openai_decisions.py. The
-- pydantic adapters of the two question formats are a parameter.
pub mod Config
mod Tests
use sleeper_service.Base.{
  String, Bool, true, false, Option, none, some, List, [], ◌∷◌, ◌&&◌, ◌||◌, not,
}
use sleeper_service.Base.Tests.{str_eq, if◌then◌else◌}
use sleeper_service.Base.Lists.{any}
use sleeper_service.Base.Text.{codes, starts_with}
use sleeper_service.Models.Json.{Value, Fields, text, end, field, get, is_true}
use sleeper_service.Access.{is_some, is_empty}

-- What the adapters read: the names of the questions for OpenAI, and whether the questions are valid for Jev.
pub record Adapters : Type 0 where
  pub openai_names : Value → Option (List (Option String))
  pub jev_valid : Value → Bool

pub data ConfigError : Type 0 where
  extra_params invalid_questions tools_granted unsupported_options output_schema_set : ConfigError

abbrev pub openai_model : String
openai_model = "openai:decisions/gpt-6-luna"

unfoldable pub is_decision_model : String → Bool
is_decision_model model_string =
    str_eq model_string openai_model
    || (starts_with (codes "openrouter:typesafe/jev-") (codes model_string)
        || starts_with (codes "openrouter:~typesafe/jev-") (codes model_string))

-- `[q.name for q in parsed if q.name is not None]`
abbrev pub given : List (Option String) → List String
given [] = []
given (none ∷ ns) = given ns
given (some n ∷ ns) = n ∷ given ns

-- `len(set(names)) == len(names)`
abbrev pub are_distinct : List String → Bool
are_distinct [] = true
are_distinct (n ∷ ns) = not (any (str_eq n) ns) && are_distinct ns

-- `parse_questions` did not raise.
unfoldable pub parses_questions : Adapters → Value → Bool
parses_questions a questions = elim (a.openai_names questions) [
  | none ↦ false
  | some names ↦ are_distinct (given names)
]

abbrev pub all_keys : (String → Bool) → Fields → Bool
all_keys p end = true
all_keys p (field k v fs) = p k && all_keys p fs

-- `set(params) == {key}`
unfoldable pub has_only : String → Fields → Bool
has_only key fs = is_some (get key fs) && all_keys (str_eq key) fs

abbrev pub is_text_of : List String → Option Value → Bool
is_text_of ts (some (text t)) = any (str_eq t) ts
is_text_of ts _ = false

unfoldable pub uses_tools : Fields → Bool
uses_tools options =
    is_text_of ("team" ∷ "tenant" ∷ []) (get "delegation" options)
    || (is_true (get "memory" options)
        || (is_true (get "learning" options) || is_true (get "human_escalation" options)))

unfoldable pub valid_questions : Adapters → String → Option Value → Bool
unfolding parses_questions
valid_questions a model_string none = false
valid_questions a model_string (some questions) =
    if str_eq model_string openai_model then parses_questions a questions else a.jev_valid questions

unfoldable pub validate_decision_config :
    Adapters
    → String
    → Fields
    → List Value
    → List Value
    → Fields
    → Option Value
    → Option ConfigError
unfolding is_decision_model has_only uses_tools valid_questions
validate_decision_config a model_string params tool_grants data_store_grants options output_schema =
    if not (is_decision_model model_string)
    then none
    else if not (has_only "questions" params)
    then some extra_params
    else if not (valid_questions a model_string (get "questions" params))
    then some invalid_questions
    else if not (is_empty tool_grants && is_empty data_store_grants)
    then some tools_granted
    else if uses_tools options
    then some unsupported_options
    else if is_some output_schema
    then some output_schema_set
    else none

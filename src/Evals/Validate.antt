-- ===== src/Evals/Validate.antt =====
-- `validate_checks` of runtime/evals.py, which vets the checks of a case before they are stored.
use sleeper_service.Base.{
  String, Bool, true, false, Option, none, some, List, [], ◌∷◌, ◌&&◌, ◌||◌, not,
}
use sleeper_service.Base.Tests.{if◌then◌else◌}
use sleeper_service.Base.Lists.{any}
use sleeper_service.Base.Text.{codes}
use sleeper_service.Models.Json.{Value, text, array, object, Fields, get}
use sleeper_service.Models.Values.{or_null, truthy}
use sleeper_service.Access.{is_some}
use sleeper_service.Memory.Cap.{strip_space}
use sleeper_service.Evals.Checks.{Graders, is_null, is_text, op_of, get_runner}

-- What `validate_checks` finds; a list or an object for an operator is a TypeError.
pub data CheckError : Type 0 where
  no_checks invalid_check needs_path needs_value invalid_regex needs_code runner_not_enabled :
      CheckError
  invalid_grader unhashable_op : CheckError

abbrev pub path_ops : List String
path_ops = "equals" ∷ "contains" ∷ "in_range" ∷ "matches_regex" ∷ []

abbrev pub is_path_op : Value → Bool
is_path_op op = any (λ o. is_text o op) path_ops

abbrev pub is_valid_op : Value → Bool
is_valid_op op = is_path_op op || (is_text "is_valid" op || is_text "code" op)

abbrev pub is_hashable : Value → Bool
is_hashable (array vs) = false
is_hashable (object fs) = false
is_hashable _ = true

-- `not isinstance(code, str) or not code.strip()`
abbrev pub source_of : Option Value → Option String
source_of (some (text s)) = elim (strip_space (codes s)) [ [] ↦ none | c ∷ cs ↦ some s ]
source_of _ = none

-- The backend is named or left out, and its validation accepts the source.
unfoldable pub validate_code : Graders → Fields → Option CheckError
unfolding get_runner
validate_code g check = elim (source_of (get "code" check)) [
  | none ↦ some needs_code
  | some source ↦
      let name = or_null (get "runner" check) in
      if not (is_null name) && not (any (λ b. is_text b name) g.enabled)
      then some runner_not_enabled
      else elim (get_runner g.enabled name) [
        | none ↦ some runner_not_enabled
        | some backend ↦ if g.defines backend source then none else some invalid_grader
      ]
]

unfoldable pub validate_check : Graders → Fields → Option CheckError
unfolding validate_code
validate_check g check =
    let op = op_of check in
    if not (is_hashable op)
    then some unhashable_op
    else if not (is_valid_op op)
    then some invalid_check
    else if is_path_op op && not (truthy (or_null (get "path" check)))
    then some needs_path
    else if is_path_op op && not (is_some (get "value" check))
    then some needs_value
    else if is_text "matches_regex" op && not (g.compiles (or_null (get "value" check)))
    then some invalid_regex
    else if is_text "code" op
    then validate_code g check
    else none

unfoldable pub validate_each : Graders → List Fields → Option CheckError
unfolding validate_check
validate_each g [] = none
validate_each g (check ∷ checks) = elim (validate_check g check) [
  | some e ↦ some e
  | none ↦ validate_each g checks
]

unfoldable pub validate_checks : Graders → List Fields → Option CheckError
unfolding validate_each
validate_checks g [] = some no_checks
validate_checks g (check ∷ checks) = validate_each g (check ∷ checks)

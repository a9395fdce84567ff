-- ===== src/Evals/Checks.antt =====
-- The checks of runtime/evals.py: how one is run on an output. The detail that goes with a
-- verdict is not modelled, only whether the check passed.
use Prim.Native.String.{compare}
use Prim.Native.Nat.{Ordering}
use sleeper_service.Base.{
  String, Bool, true, false, Option, none, some, List, [], ◌∷◌, ◌&&◌, ◌||◌, not,
}
use sleeper_service.Base.Tests.{leb, str_eq, if◌then◌else◌}
use sleeper_service.Base.Lists.{any}
use sleeper_service.Base.Text.{Text, codes, text_eq, occurs, split}
use sleeper_service.Models.Json.{
  ℤ, pos, negsuc, Value, null, boolean, number, text, array, object, Items, nil, cons, Fields, end,
  field, get,
}
use sleeper_service.Models.Values.{as_int, value_eq, or_null, truthy}
use sleeper_service.Access.{is_some}

-- The backends that run a grader, jsonschema, and the `regex` module: whether a pattern compiles, and whether it is
-- found in a value within its time.
pub record Graders : Type 0 where
  pub enabled : List String
  pub run : String → Value → Value → Option Value
  pub defines : String → String → Bool
  pub conforms : Value → Value → Bool
  pub compiles : Value → Bool
  pub found : Value → Value → Bool

-- `d[key]` for a key that is walked as a list of code points.
abbrev pub get_part : Text → Fields → Option Value
get_part k end = none
get_part k (field j v fs) = if text_eq (codes j) k then some v else get_part k fs

abbrev pub dig_parts : List Text → Value → Value
dig_parts [] v = v
dig_parts (k ∷ ks) (object fs) = elim (get_part k fs) [ none ↦ null | some w ↦ dig_parts ks w ]
dig_parts (k ∷ ks) _ = null

-- `_dig`, where None stands for a path that leads nowhere.
unfoldable pub dig : Value → String → Value
dig output path = dig_parts (split 46 (codes path)) output

abbrev pub has_item : Value → Items → Bool
has_item v nil = false
has_item v (cons w ws) = value_eq v w || has_item v ws

-- `value in actual`, which is no member where the test is a TypeError.
unfoldable pub is_in : Value → Value → Bool
is_in (text s) (text t) = occurs (codes s) (codes t)
is_in v (array ws) = has_item v ws
is_in (text s) (object fs) = is_some (get s fs)
is_in _ _ = false

abbrev pub int_le : ℤ → ℤ → Bool
int_le (pos m) (pos n) = leb m n
int_le (pos m) (negsuc n) = false
int_le (negsuc m) (pos n) = true
int_le (negsuc m) (negsuc n) = leb n m

unfoldable mutual
  -- `a <= b`, which does not hold where it is a TypeError.
  pub value_le : Value → Value → Bool
  value_le (boolean a) (boolean b) = int_le (as_int a) (as_int b)
  value_le (boolean a) (number n) = int_le (as_int a) n
  value_le (number m) (boolean b) = int_le m (as_int b)
  value_le (number m) (number n) = int_le m n
  value_le (text s) (text t) = elim (compare s t) [ Ordering.gt ↦ false | _ ↦ true ]
  value_le (array vs) (array ws) = items_le vs ws
  value_le _ _ = false

  -- The first items that differ decide, and then the lengths.
  pub items_le : Items → Items → Bool
  items_le nil ws = true
  items_le (cons v vs) nil = false
  items_le (cons v vs) (cons w ws) =
      let rest = items_le vs ws in let here = value_le v w in if value_eq v w then rest else here

abbrev pub pair_of : Items → Option (Value × Value)
pair_of (cons v (cons w nil)) = some (v, w)
pair_of _ = none

abbrev pub letters : String → Items
letters String.[] = nil
letters (String.◌∷◌ c s) = cons (text (String.◌∷◌ c String.[])) (letters s)

abbrev pub keys : Fields → Items
keys end = nil
keys (field k v fs) = cons (text k) (keys fs)

-- `lo, hi = value`
abbrev pub unpack : Value → Option (Value × Value)
unpack (array vs) = pair_of vs
unpack (text s) = pair_of (letters s)
unpack (object fs) = pair_of (keys fs)
unpack _ = none

abbrev pub is_null : Value → Bool
is_null null = true
is_null _ = false

unfoldable pub in_range : Value → Value → Bool
in_range actual value = elim (unpack value) [
  | none ↦ false
  | some (lo, hi) ↦ not (is_null actual) && (value_le lo actual && value_le actual hi)
]

-- `op == name`
abbrev pub is_text : String → Value → Bool
is_text name (text s) = str_eq s name
is_text name _ = false

abbrev pub op_of : Fields → Value
op_of check = or_null (get "op" check)

-- The end of one check: passed or not, or an AttributeError that nothing catches.
pub data Graded : Type 0 where
  judged : Bool → Graded
  raised : Graded

-- `get_runner`: the backend, or a SandboxError.
unfoldable pub get_runner : List String → Value → Option String
get_runner [] name = none
get_runner (first ∷ rest) name =
    if truthy name
    then elim name [ text s ↦ if any (str_eq s) (first ∷ rest) then some s else none | _ ↦ none ]
    else some first

unfoldable pub run_grader : Graders → Fields → Value → Bool
unfolding get_runner
run_grader g check output = elim (get_runner g.enabled (or_null (get "runner" check))) [
  | none ↦ false
  | some backend ↦
      elim (g.run backend (elim (get "code" check) [ none ↦ text "" | some c ↦ c ]) output) [
        | none ↦ false
        | some result ↦ truthy result
      ]
]

-- The operators that look at the value at a path.
unfoldable pub compare_at : Graders → Value → Value → Value → Bool
unfolding is_in in_range value_eq
compare_at g op actual value =
    if is_text "equals" op
    then value_eq actual value
    else if is_text "contains" op
    then is_in value actual
    else if is_text "in_range" op
    then in_range actual value
    else if is_text "matches_regex" op
    then g.compiles value && (not (is_null actual) && g.found value actual)
    else false

-- `_dig` splits the path, which fails for a path that is no text.
unfoldable pub check_path : Graders → Fields → Value → Graded
unfolding compare_at dig
check_path g check output = elim (get "path" check) [
  | none ↦ judged (compare_at g (op_of check) (dig output "") (or_null (get "value" check)))
  | some path ↦ elim path [
    | text p ↦ judged (compare_at g (op_of check) (dig output p) (or_null (get "value" check)))
    | _ ↦ raised
  ]
]

unfoldable pub run_check : Graders → Option Value → Fields → Option Value → Graded
unfolding run_grader check_path
run_check g output_schema check none = judged false
run_check g output_schema check (some output) =
    if is_text "is_valid" (op_of check)
    then judged (truthy (or_null output_schema) && g.conforms output (or_null output_schema))
    else if is_text "code" (op_of check)
    then judged (run_grader g check output)
    else check_path g check output

-- The verdicts, or none where a check raises.
abbrev pub and_verdict : Graded → Option (List Bool) → Option (List Bool)
and_verdict (judged b) (some bs) = some (b ∷ bs)
and_verdict _ _ = none

unfoldable pub grade_output :
    Graders → Option Value → List Fields → Option Value → Option (List Bool)
unfolding run_check
grade_output g output_schema [] output = some []
grade_output g output_schema (check ∷ checks) output =
    and_verdict (run_check g output_schema check output)
      (grade_output g output_schema checks output)

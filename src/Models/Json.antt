-- ===== src/Models/Json.antt =====
-- The values of JSONB columns: options, settings, params, payloads, outputs and schemas. A JSON number
-- is an integer; JSON floats are not modelled.
use sleeper_service.Base.{ℕ, String, Bool, true, false, Option, none, some}
use sleeper_service.Base.Tests.{str_eq, if◌then◌else◌}

-- `negsuc n` is -(n + 1).
pub data ℤ : Type 0 where
  pos : ℕ → ℤ
  negsuc : ℕ → ℤ

mutual
  pub data Value : Type 0 where
    null : Value
    boolean : Bool → Value
    number : ℤ → Value
    text : String → Value
    array : Items → Value
    object : Fields → Value

  pub data Items : Type 0 where
    nil : Items
    cons : Value → Items → Items

  pub data Fields : Type 0 where
    end : Fields
    field : String → Value → Fields → Fields

-- `d.get(key)`; the keys of a `dict` are distinct, and the first is found.
abbrev pub get : String → Fields → Option Value
get k end = none
get k (field j v fs) = if str_eq j k then some v else get k fs

-- `d.get(key) is True`
abbrev pub is_true : Option Value → Bool
is_true (some (boolean true)) = true
is_true _ = false

-- `d.get(key) is False`
abbrev pub is_false : Option Value → Bool
is_false (some (boolean false)) = true
is_false _ = false

-- `d.get(key, {})` where a settings object is expected; another value stands for an object without keys.
abbrev pub as_object : Option Value → Fields
as_object (some (object fs)) = fs
as_object _ = end

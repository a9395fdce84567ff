-- ===== src/Models/Values.antt =====
-- Python's equality and truth on JSON values, and the walk along a dotted path.
use sleeper_service.Base.{ℕ, suc, String, Bool, true, false, Option, none, some, ◌&&◌, not}
use sleeper_service.Base.Tests.{◌==◌, str_eq}
use sleeper_service.Models.Json.{
  ℤ, pos, negsuc, Value, null, boolean, number, text, array, object, Items, nil, cons, Fields, end,
  field, get,
}

abbrev pub int_eq : ℤ → ℤ → Bool
int_eq (pos m) (pos n) = m == n
int_eq (negsuc m) (negsuc n) = m == n
int_eq (pos m) (negsuc n) = false
int_eq (negsuc m) (pos n) = false

-- `True == 1` and `False == 0` in Python.
abbrev pub as_int : Bool → ℤ
as_int true = pos 1
as_int false = pos 0

abbrev pub size : Fields → ℕ
size end = 0
size (field k v fs) = suc (size fs)

unfoldable mutual
  -- `a == b`
  pub value_eq : Value → Value → Bool
  value_eq null null = true
  value_eq (boolean a) (boolean b) = int_eq (as_int a) (as_int b)
  value_eq (boolean a) (number n) = int_eq (as_int a) n
  value_eq (number m) (boolean b) = int_eq m (as_int b)
  value_eq (number m) (number n) = int_eq m n
  value_eq (text s) (text t) = str_eq s t
  value_eq (array xs) (array ys) = items_eq xs ys
  value_eq (object fs) (object gs) = size fs == size gs && fields_in fs gs
  value_eq _ _ = false

  pub items_eq : Items → Items → Bool
  items_eq nil nil = true
  items_eq (cons v vs) (cons w ws) = value_eq v w && items_eq vs ws
  items_eq _ _ = false

  -- Every item of the first `dict` is one of the second: their order does not count.
  pub fields_in : Fields → Fields → Bool
  fields_in end gs = true
  fields_in (field k v fs) gs =
      (elim (get k gs) [ none ↦ false | some w ↦ value_eq v w ]) && fields_in fs gs

-- `d.get(key)`, which is None for a missing key and for a null.
abbrev pub or_null : Option Value → Value
or_null none = null
or_null (some v) = v

-- `bool(v)`
abbrev pub truthy : Value → Bool
truthy null = false
truthy (boolean b) = b
truthy (number n) = not (int_eq n (pos 0))
truthy (text String.[]) = false
truthy (text _) = true
truthy (array nil) = false
truthy (array (cons v vs)) = true
truthy (object end) = false
truthy (object (field k v fs)) = true

-- ===== src/Hooks/Redact.antt =====
-- `redact_pii` of runtime/hooks.py. `subn` stands for `pattern.subn` of the standard library's regular
-- expressions, for each of the three patterns.
use sleeper_service.Base.{ℕ, ◌+◌, String, ◌≡◌, refl, ap, arith, ◌∙◌}
use sleeper_service.Models.Json.{
  Value, null, boolean, number, text, array, object, Items, nil, cons, Fields, end, field,
}

pub data PiiPattern : Type 0 where
  ssn credit_card email : PiiPattern

module _ (subn : PiiPattern → String → String × ℕ) where
  unfoldable pub redact_text : String → String × ℕ
  redact_text s =
      let (s₁, n₁) = subn ssn s in
      let (s₂, n₂) = subn credit_card s₁ in let (s₃, n₃) = subn email s₂ in (s₃, n₁ + n₂ + n₃)

  unfoldable mutual
    pub redact_pii : Value → Value × ℕ
    redact_pii null = (null, 0)
    redact_pii (boolean b) = (boolean b, 0)
    redact_pii (number n) = (number n, 0)
    redact_pii (text s) = let (s', n) = redact_text s in (text s', n)
    redact_pii (array xs) = let (xs', n) = redact_items xs in (array xs', n)
    redact_pii (object fs) = let (fs', n) = redact_fields fs in (object fs', n)

    pub redact_items : Items → Items × ℕ
    redact_items nil = (nil, 0)
    redact_items (cons x xs) =
        let (x', n) = redact_pii x in let (xs', k) = redact_items xs in (cons x' xs', n + k)

    pub redact_fields : Fields → Fields × ℕ
    redact_fields end = (end, 0)
    redact_fields (field key v fs) =
        let (v', n) = redact_pii v in let (fs', k) = redact_fields fs in (field key v' fs', n + k)

  module _ (subn_none : (p : PiiPattern) (s : String) → (subn p s).1 ≡ 0 → (subn p s).0 ≡ s) where
    redact_text_none : (s : String) → (redact_text s).1 ≡ 0 → (redact_text s).0 ≡ s
    unfolding redact_text
    redact_text_none s h =
        let s₁ = (subn ssn s).0 in
        let s₂ = (subn credit_card s₁).0 in
        subn_none email s₂ (omega arith)
        ∙ (subn_none credit_card s₁ (omega arith) ∙ subn_none ssn s (omega arith))

    mutual
      unfolding redact_pii redact_items redact_fields

      none_value : (v : Value) → (redact_pii v).1 ≡ 0 → (redact_pii v).0 ≡ v
      none_value null h = refl
      none_value (boolean b) h = refl
      none_value (number n) h = refl
      none_value (text s) h = ap text (redact_text_none s h)
      none_value (array xs) h = ap array (none_items xs h)
      none_value (object fs) h = ap object (none_fields fs h)

      none_items : (xs : Items) → (redact_items xs).1 ≡ 0 → (redact_items xs).0 ≡ xs
      none_items nil h = refl
      none_items (cons x xs) h =
          λ i. cons (none_value x (omega arith) i) (none_items xs (omega arith) i)

      none_fields : (fs : Fields) → (redact_fields fs).1 ≡ 0 → (redact_fields fs).0 ≡ fs
      none_fields end h = refl
      none_fields (field key v fs) h =
          λ i. field key (none_value v (omega arith) i) (none_fields fs (omega arith) i)

    -- Where `subn` gives the text back whenever it counts no match, an output for which the redaction counts
    -- none is the output unchanged: nothing is altered without a `pii_redacted` event.
    pub redact_pii_none : (v : Value) → (redact_pii v).1 ≡ 0 → (redact_pii v).0 ≡ v
    redact_pii_none v h = none_value v h

-- The value with its texts left out: its objects with their keys in their order, its lists with their lengths,
-- and every number, Boolean and null.
abbrev mutual
  pub shape : Value → Value
  shape null = null
  shape (boolean b) = boolean b
  shape (number n) = number n
  shape (text s) = text ""
  shape (array xs) = array (shape_items xs)
  shape (object fs) = object (shape_fields fs)

  pub shape_items : Items → Items
  shape_items nil = nil
  shape_items (cons x xs) = cons (shape x) (shape_items xs)

  pub shape_fields : Fields → Fields
  shape_fields end = end
  shape_fields (field key v fs) = field key (shape v) (shape_fields fs)

module _ (subn : PiiPattern → String → String × ℕ) where
  mutual
    unfolding redact_pii redact_items redact_fields

    shape_value : (v : Value) → shape (redact_pii subn v).0 ≡ shape v
    shape_value null = refl
    shape_value (boolean b) = refl
    shape_value (number n) = refl
    shape_value (text s) = refl
    shape_value (array xs) = ap array (shape_redact_items xs)
    shape_value (object fs) = ap object (shape_redact_fields fs)

    shape_redact_items : (xs : Items) → shape_items (redact_items subn xs).0 ≡ shape_items xs
    shape_redact_items nil = refl
    shape_redact_items (cons x xs) = λ i. cons (shape_value x i) (shape_redact_items xs i)

    shape_redact_fields : (fs : Fields) → shape_fields (redact_fields subn fs).0 ≡ shape_fields fs
    shape_redact_fields end = refl
    shape_redact_fields (field key v fs) =
        λ i. field key (shape_value v i) (shape_redact_fields fs i)

  -- Redaction alters texts alone: keys, their order, lengths, numbers, Booleans and nulls stay, whatever the
  -- patterns.
  pub shape-redact_pii : (v : Value) → shape (redact_pii subn v).0 ≡ shape v
  shape-redact_pii v = shape_value v

-- ===== src/Evals/Grading.antt =====
-- When the grading of an output goes through, and what the checks of a case may be.
use sleeper_service.Base.{
  ℕ, suc, Bool, true, false, Option, none, some, List, [], ◌∷◌, ◌&&◌, ◌||◌, not, ◌≡◌, ◌↔◌, refl,
  arith, inl, inr,
}
use sleeper_service.Base.Tests.{Bool-cases}
use sleeper_service.Base.Lists.{any, length}
use sleeper_service.Models.Json.{Value, text, Fields, field, end, get}
use sleeper_service.Models.Values.{truthy}
use sleeper_service.Evals.Checks.{
  Graders, Graded, judged, raised, op_of, is_text, run_check, check_path, grade_output, and_verdict,
}
use sleeper_service.Evals.Validate.{validate_checks, validate_each, validate_check}

-- A path that is not a text.
abbrev pub is_odd_path : Option Value → Bool
is_odd_path none = false
is_odd_path (some (text p)) = false
is_odd_path (some _) = true

-- A check that looks at a path, and whose path cannot be split.
abbrev pub is_odd : Fields → Bool
is_odd check =
    not (is_text "is_valid" (op_of check))
    && (not (is_text "code" (op_of check)) && is_odd_path (get "path" check))

Grades : Option (List Bool) → Bool → ℕ → Type 0
Grades verdicts fails total =
    ((verdicts ≡ none) ↔ (fails ≡ true))
    × ((vs : List Bool) → verdicts ≡ some vs → length vs ≡ total)

one_more :
    (v : Graded) (verdicts : Option (List Bool)) (b c : Bool) (n : ℕ)
    → (v ≡ raised) ↔ (b ≡ true)
    → Grades verdicts c n
    → Grades (and_verdict v verdicts) (b || c) (suc n)
unfolding Grades
one_more raised verdicts true c n h k = ((λ e. refl, λ e. refl), λ vs e. absurd (cc))
one_more raised verdicts false c n h k = let e : false ≡ true = h.0 refl in absurd (cc)
one_more (judged x) verdicts true c n h k = absurd (ground arith)
one_more (judged x) none false c n h k = ((λ e. k.0.0 refl, λ e. refl), λ vs e. absurd (cc))
one_more (judged x) (some vs) false c n h k =
    ((λ e. absurd (cc), λ e. absurd (ground arith)), λ ws e. ground (arith, k.1 vs refl))

module _ (g : Graders) (schema : Option Value) (output : Value) where
  check_path-raised :
      (check : Fields)
      → (check_path g check output ≡ raised) ↔ (is_odd_path (get "path" check) ≡ true)
  unfolding check_path
  check_path-raised check = ground arith

  run_check-raised :
      (check : Fields) → (run_check g schema check (some output) ≡ raised) ↔ (is_odd check ≡ true)
  unfolding run_check
  run_check-raised check = elim (Bool-cases (is_text "is_valid" (op_of check))) [
    | inl v ↦ rw (run_check, v) (λ h. absurd (cc), λ h. absurd (cc))
    | inr v ↦ elim (Bool-cases (is_text "code" (op_of check))) [
      | inl c ↦ rw (run_check, v, c) (λ h. absurd (cc), λ h. absurd (cc))
      | inr c ↦ rw (run_check, v, c) (check_path-raised check)
    ]
  ]

  -- Grading an output raises exactly if some check has a path that is not a text, and is not one of the two operators
  -- that look at no path. Otherwise it gives a verdict for each check.
  pub grade_output-raised :
      (checks : List Fields)
      → ((grade_output g schema checks (some output) ≡ none) ↔ (any is_odd checks ≡ true))
        × ((verdicts : List Bool)
            → grade_output g schema checks (some output) ≡ some verdicts
            → length verdicts ≡ length checks)
  unfolding grade_output Grades
  grade_output-raised [] = ((λ e. absurd (cc), λ e. absurd (cc)), λ vs e. ground arith)
  grade_output-raised (check ∷ checks) =
      one_more (run_check g schema check (some output)) (grade_output g schema checks (some output))
        (is_odd check) (any is_odd checks) (length checks) (run_check-raised check)
        (grade_output-raised checks)

-- A check that compares with the value at a path that is a number, a list or an object.
abbrev pub odd_check : Value → Value → Fields
odd_check path value = field "op" (text "equals") (field "path" path (field "value" value end))

-- The validation of a case lets such a check through, and grading any output by it raises.
pub odd_check-raised :
    (g : Graders) (schema : Option Value) (path value output : Value)
    → truthy path ≡ true
    → is_odd_path (some path) ≡ true
    → (validate_checks g (odd_check path value ∷ []) ≡ none)
      × (grade_output g schema (odd_check path value ∷ []) (some output) ≡ none)
unfolding validate_checks validate_each validate_check
odd_check-raised g schema path value output t odd =
    (rw t refl, (grade_output-raised g schema output (odd_check path value ∷ [])).0.1 (rw odd refl))

-- ===== src/Hooks.antt =====
-- runtime/hooks.py: the prompt-injection screen before a job and the redaction after it. The `regex` and `re`
-- engines and the classifier's model are parameters.
pub mod Screen
pub mod Redact
mod Tests
use sleeper_service.Base.{
  ℕ, ◌-◌, String, Bool, true, false, Option, none, some, List, [], ◌∷◌, ◌++◌, ◌&&◌, ◌||◌, not,
}
use sleeper_service.Base.Tests.{◌==◌, str_eq, if◌then◌else◌}
use sleeper_service.Base.Lists.{any}
use sleeper_service.Base.Text.{Text}
use sleeper_service.Models.Jobs.{Flag, matched, screen_timeout, llm_classifier}
use sleeper_service.Models.Json.{
  Value, null, boolean, number, text, array, object, Items, nil, cons, Fields, end, field, get,
  is_true, is_false, as_object,
}

-- A compiled pattern is a number; a search takes some of the time that is left, or runs out of it.
pub record Rule : Type 0 where
  pub name : String
  pub pattern : ℕ

pub data Search : Type 0 where
  found missed : ℕ → Search
  timed_out : Search

pub record Engine : Type 0 where
  pub compile : String → Option ℕ
  pub search : ℕ → Text → ℕ → Search

-- `_tenant_rules`: an entry without a name or a regex that compiles is skipped. A name is a text.
unfoldable pub tenant_rule : Engine → Option Value → Option Value → List Rule → List Rule
tenant_rule e (some (text name)) (some (text source)) rest = elim (e.compile source) [
  | none ↦ rest
  | some p ↦ record { name = name; pattern = p } ∷ rest
]
tenant_rule e _ _ rest = rest

unfoldable pub tenant_rules : Engine → Items → List Rule
unfolding tenant_rule
tenant_rules e nil = []
tenant_rules e (cons (object item) items) =
    tenant_rule e (get "name" item) (get "regex" item) (tenant_rules e items)
tenant_rules e (cons _ items) = tenant_rules e items

abbrev pub as_items : Option Value → Items
as_items (some (array xs)) = xs
as_items _ = nil

abbrev pub texts_of : Items → List String
texts_of nil = []
texts_of (cons (text s) xs) = s ∷ texts_of xs
texts_of (cons _ xs) = texts_of xs

unfoldable pub extra_rules : Engine → Fields → List Rule
extra_rules e settings =
    tenant_rules e (as_items (get "injection_patterns" (as_object (get "hooks" settings))))

abbrev pub ignored_names : Fields → List String
ignored_names settings =
    texts_of (as_items (get "injection_ignore_rules" (as_object (get "hooks" settings))))

abbrev pub is_ignored : List String → Rule → Bool
is_ignored ignore r = any (λ s. str_eq s r.name) ignore

-- The outcome of a pass: a flag, or none with the time that is left.
pub data Pass : Type 0 where
  flagged : Flag → Pass
  clear : ℕ → Pass

-- One search, and what follows it where it missed.
unfoldable pub after_search : Rule → Search → ℕ → (ℕ → Pass) → Pass
after_search r (found t) left go = flagged (matched r.name)
after_search r (missed t) left go = go (left - t)
after_search r timed_out left go = flagged (screen_timeout r.name)

-- The inner loop of `screen_injection`, over the rules for one text.
unfoldable pub screen_text : Engine → List String → Text → List Rule → ℕ → Pass
unfolding after_search
screen_text e ignore t [] left = clear left
screen_text e ignore t (r ∷ rs) left =
    let next = λ (n : ℕ). screen_text e ignore t rs n in
    if is_ignored ignore r
    then next left
    else if left == 0
    then flagged (screen_timeout r.name)
    else after_search r (e.search r.pattern t left) left next

unfoldable pub then_pass : Pass → (ℕ → Pass) → Pass
then_pass (flagged f) go = flagged f
then_pass (clear left) go = go left

-- The outer loop, over the texts.
unfoldable pub screen_texts : Engine → List String → List Rule → List Text → ℕ → Pass
unfolding then_pass
screen_texts e ignore rules [] left = clear left
screen_texts e ignore rules (t ∷ ts) left =
    then_pass (screen_text e ignore t rules left) (λ n. screen_texts e ignore rules ts n)

unfoldable pub flag_of : Pass → Option Flag
flag_of (flagged f) = some f
flag_of (clear left) = none

-- The built-in rules and the timeout of the settings are arguments.
unfoldable pub screen_injection : Engine → List Rule → ℕ → Fields → List Text → Option Flag
unfolding flag_of
screen_injection e builtin timeout settings texts =
    flag_of
      (screen_texts e (ignored_names settings) (builtin ++ extra_rules e settings) texts timeout)

unfoldable pub classifier_model_string : Fields → Option String
classifier_model_string settings =
    elim (get "injection_classifier_model" (as_object (get "hooks" settings))) [
      | none ↦ none
      | some v ↦ elim v [ text s ↦ if str_eq s "" then none else some s | _ ↦ none ]
    ]

-- Both tiers. The second is asked only where the first found nothing; `classify` gives none where its model is
-- not available, and a flag or none else.
unfoldable pub screen_untrusted :
    Engine → List Rule → ℕ → (String → List Text → Option Bool) → Fields → List Text → Option Flag
unfolding screen_injection classifier_model_string
screen_untrusted e builtin timeout classify settings texts =
    elim (screen_injection e builtin timeout settings texts) [
      | some f ↦ some f
      | none ↦ elim (classifier_model_string settings) [
        | none ↦ none
        | some model ↦ elim (classify model texts) [
          | none ↦ none
          | some injection ↦ if injection then some llm_classifier else none
        ]
      ]
    ]

unfoldable pub injection_screen_enabled : Fields → Fields → Bool
injection_screen_enabled settings options = not (
    is_false (get "injection_screen" (as_object (get "hooks" options)))
    || is_false (get "injection_screen" (as_object (get "hooks" settings))))

unfoldable pub pii_redaction_enabled : Fields → Bool
pii_redaction_enabled options = is_true (get "pii_redaction" (as_object (get "hooks" options)))

-- ===== src/Hooks/Screen.antt =====
-- What the heuristic screen promises: it fails closed.
use sleeper_service.Base.{ℕ, ◌≤◌, ◌≡◌, ◌⊎◌, String, true, List}
use sleeper_service.Base.Lists.{All}
use sleeper_service.Base.Text.{Text}
use sleeper_service.Hooks.{Rule, missed, Engine, is_ignored}

-- The rule was searched for in the text with some time left, and the search ended without a match in that time.
abbrev pub Missed : Engine → ℕ → Text → Rule → Type 0
Missed e budget t r =
    (left : ℕ) × (spent : ℕ) × (left ≤ budget) × (e.search r.pattern t left ≡ missed spent)

-- Every rule that the tenant does not ignore was searched for in the text, and missed.
abbrev pub Cleared : Engine → List String → ℕ → List Rule → Text → Type 0
Cleared e ignore budget rules t =
    All (λ r. (is_ignored ignore r ≡ true) ⊎ Missed e budget t r) rules

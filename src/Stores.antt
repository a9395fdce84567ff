-- ===== src/Stores.antt =====
-- The data-store file tools of runtime/toolsets.py: a grant pins a store, a path prefix and a mode, and every
-- path that the model gives is resolved under the prefix. `posixpath` is Python's own. A backend is a
-- parameter: its state, and the three calls that the tools make on it.
pub mod Paths
pub mod Normal
pub mod Contained
pub mod RoundTrip
pub mod Tools
mod Tests
use sleeper_service.Base.{
  ℕ, Bool, true, false, Option, none, some, List, [], ◌∷◌, ◌++◌, ◌&&◌, ◌||◌, not, ◌≡◌, ◌⊎◌, inl,
  inr, refl,
}
use sleeper_service.Base.Tests.{◌==◌, if◌then◌else◌}
use sleeper_service.Base.Lists.{take}
use sleeper_service.Base.Text.{Text, text_eq, starts_with, join}
use Paths.{slash, lstrip, strip, posix_join, normpath, parent_dir, parent_slash}

-- `ModelRetry`: the tool hands the mistake back to the model.
pub data ToolError : Type 0 where
  escapes_prefix no_such_grant no_such_path read_only : ToolError

pub data ToolResult {ℓ} (A : Type ℓ) : Type ℓ where
  ok : A → ToolResult A
  retry : ToolError → ToolResult A

pub ToolResult-cases {ℓ} :
    {A : Type ℓ} (r : ToolResult A) → ((a : A) × (r ≡ ok a)) ⊎ ((e : ToolError) × (r ≡ retry e))
ToolResult-cases (ok a) = inl (a, refl)
ToolResult-cases (retry e) = inr (e, refl)

pub record StoreGrant : Type 0 where
  pub root : Text
  pub prefix : Text
  pub read_write : Bool

-- `_StoreGrant.__init__`
unfoldable pub new_grant : Text → Text → Bool → StoreGrant
new_grant root prefix read_write = record {
  root = root;
  prefix = strip slash prefix;
  read_write = read_write;
}

abbrev pub is_nil : Text → Bool
is_nil [] = true
is_nil (x ∷ xs) = false

escaped : Text → Text → Bool
escaped prefix candidate =
    (not (is_nil prefix)
      && not (text_eq candidate prefix)
      && not (starts_with (prefix ++ slash ∷ []) candidate))
    || (text_eq candidate parent_dir
        || (starts_with parent_slash candidate || starts_with (slash ∷ []) candidate))

unfoldable pub resolve : StoreGrant → Text → ToolResult Text
unfolding escaped
resolve g path =
    let candidate = normpath (posix_join g.prefix (lstrip slash path)) in
    if escaped g.prefix candidate then retry escapes_prefix else ok candidate

-- What follows the prefix in a text that begins with it.
abbrev pub after_prefix : Text → Text → Option Text
after_prefix [] s = some s
after_prefix (x ∷ xs) [] = none
after_prefix (x ∷ xs) (y ∷ ys) = if x == y then after_prefix xs ys else none

-- `s.removeprefix(p)`
abbrev pub remove_prefix : Text → Text → Text
remove_prefix p s = elim (after_prefix p s) [ none ↦ s | some rest ↦ rest ]

unfoldable pub relative : StoreGrant → Text → Text → Text
relative g key root =
    let rel = remove_prefix (root ++ slash ∷ []) key in
    if is_nil g.prefix then rel else remove_prefix (g.prefix ++ slash ∷ []) rel

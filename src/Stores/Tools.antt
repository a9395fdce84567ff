-- ===== src/Stores/Tools.antt =====
-- The three file tools of `build_store_toolset`, over a backend that is a parameter.
use sleeper_service.Base.{
  ℕ, Option, none, some, List, [], ◌∷◌, ◌++◌, ◌≡◌, inl, inr, String, arith, map,
}
use sleeper_service.Base.Tests.{str_eq, if◌then◌else◌, Option-cases}
use sleeper_service.Base.Lists.{take}
use sleeper_service.Base.Text.{Text, split}
use sleeper_service.Stores.{
  StoreGrant, ToolResult, ok, retry, ToolError, ToolResult-cases, no_such_grant, no_such_path,
  read_only, resolve, relative,
}
use sleeper_service.Stores.Paths.{slash}
use sleeper_service.Stores.Contained.{IsBelow, walk, resolve-IsBelow}

-- A file system of fsspec, or the backend for Box: `ls` and `cat_file` give none where they raise
-- FileNotFoundError.
pub record Backend (F : Type 0) : Type 0 where
  pub ls : F → Text → Option (List Text)
  pub cat_file : F → Text → Option Text
  pub pipe_file : F → Text → Text → F

abbrev pub max_read_bytes : ℕ
max_read_bytes = 200000

-- The dict of the grants by the store's name.
abbrev pub Grants : Type 0
Grants = List (String × StoreGrant)

abbrev pub grant_for : String → Grants → Option StoreGrant
grant_for s [] = none
grant_for s ((t, g) ∷ gs) = if str_eq t s then some g else grant_for s gs

abbrev pub under_root : StoreGrant → Text → Text
under_root g c = g.root ++ slash ∷ c

infixl 5 ◌>>=◌
abbrev ◌>>=◌ {ℓ κ} : {A : Type ℓ} {B : Type κ} → ToolResult A → (A → ToolResult B) → ToolResult B
ok a >>= f = f a
retry e >>= f = retry e

abbrev or_retry {ℓ} : {A : Type ℓ} → Option A → ToolError → ToolResult A
or_retry none e = retry e
or_retry (some a) e = ok a

module _ {F : Type 0} (b : Backend F) (grants : Grants) (fs : F) where
  pub list_files : String → Text → ToolResult (List Text)
  list_files store_name path = do
    g ← or_retry (grant_for store_name grants) no_such_grant
    full ← resolve g path
    keys ← or_retry (b.ls fs (under_root g full)) no_such_path
    ok (map (λ key. relative g key g.root) keys)

  unfoldable pub read_file : String → Text → ToolResult Text
  read_file store_name path = do
    g ← or_retry (grant_for store_name grants) no_such_grant
    full ← resolve g path
    bytes ← or_retry (b.cat_file fs (under_root g full)) no_such_path
    ok (take max_read_bytes bytes)

  written : StoreGrant → Text → ToolResult Text → F × ToolResult (Unit {0})
  written g content (ok full) = (b.pipe_file fs (under_root g full) content, ok tt)
  written g content (retry e) = (fs, retry e)

  pub write_file : String → Text → Text → F × ToolResult (Unit {0})
  unfolding written
  write_file store_name path content = elim (grant_for store_name grants) [
    | none ↦ (fs, retry no_such_grant)
    | some g ↦ if g.read_write then written g content (resolve g path) else (fs, retry read_only)
  ]

  -- A read that succeeds gives the first bytes of one file of a granted store, up to the limit, and that file's
  -- path is at or below the granted prefix.
  pub read_file_confined :
      (store_name : String) (path : Text) {text : Text}
      → read_file store_name path ≡ ok text
      → (g : StoreGrant) × (c : Text) × (bytes : Text) × (grant_for store_name grants ≡ some g)
        × (b.cat_file fs (under_root g c) ≡ some bytes)
        × (text ≡ take max_read_bytes bytes)
        × ((at : List Text) → IsBelow (walk at (split slash c)) (walk at (split slash g.prefix)))
  unfolding read_file
  read_file_confined store_name path h = elim (Option-cases (grant_for store_name grants)) [
    | inl e ↦ absurd (ground arith)
    | inr (g, e) ↦ elim (ToolResult-cases (resolve g path)) [
      | inr (x, q) ↦ absurd (ground arith)
      | inl (c, q) ↦ elim (Option-cases (b.cat_file fs (under_root g c))) [
        | inl n ↦ absurd (ground arith)
        | inr (bytes, n) ↦ (g, c, bytes, e, n, ground arith, λ at. resolve-IsBelow g path at q)
      ]
    ]
  ]

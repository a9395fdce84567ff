-- ===== src/Stores/Tests.antt =====
-- A store with two files, a grant on one folder, and paths that a model may give.
use sleeper_service.Base.{◌≡◌, refl, true, Option, none, some, List, [], ◌∷◌}
use sleeper_service.Base.Tests.{if◌then◌else◌}
use sleeper_service.Base.Lists.{All}
use sleeper_service.Base.Text.{Text, codes, split, text_eq}
use sleeper_service.Stores.{StoreGrant, new_grant, ok, resolve, relative}
use sleeper_service.Stores.Paths.{slash, strip}
use sleeper_service.Stores.RoundTrip.{IsName, key_of, resolve-relative}
use sleeper_service.Stores.Tools.{Backend, Grants}

abbrev drafts : StoreGrant
drafts = record { root = codes "docs"; prefix = codes "drafts"; read_write = true }

abbrev Files : Type 0
Files = List (Text × Text)

abbrev look_up : Files → Text → Option Text
look_up [] key = none
look_up ((k, v) ∷ fs) key = if text_eq k key then some v else look_up fs key

abbrev files : Files
files = (codes "docs/drafts/a", codes "hello") ∷ (codes "docs/private", codes "secret") ∷ []

abbrev backend : Backend Files
backend = record {
  ls = λ fs p. none;
  cat_file = λ fs p. look_up fs p;
  pipe_file = λ fs p t. (p, t) ∷ fs;
}

abbrev grants : Grants
grants = ("docs", drafts) ∷ []

prefix_names : All IsName (split slash (new_grant (codes "docs") (codes "/drafts/") true).prefix)
unfolding new_grant strip split
prefix_names = ((refl, refl), tt)

path_names : All IsName (split slash (codes "2026/a"))
unfolding split
path_names = ((refl, refl), ((refl, refl), tt))

resolve-relative_example :
    (let g = new_grant (codes "docs") (codes "/drafts/") true in
      resolve g
        (relative g (key_of (codes "docs") (key_of g.prefix (codes "2026/a"))) (codes "docs"))
      ≡ ok (key_of g.prefix (codes "2026/a")))
resolve-relative_example =
    resolve-relative (codes "docs") (codes "/drafts/") true (codes "2026/a") prefix_names path_names

-- ===== src/Versions/Refinement.antt =====
-- The alias requests implement a map: what they leave in the table, seen as a map, is what the specification assigns.
use mathlib.Core.Path.{subst, fun_ext}
use sleeper_service.Base.{
  ℕ, ◌≡◌, ◌&&◌, String, Bool, true, false, Option, none, some, List, [], ◌∷◌, refl, ap, ◌∙◌, inl,
  inr,
}
use sleeper_service.Base.Tests.{◌==◌, str_eq, if◌then◌else◌, Bool-cases, Option-cases}
use sleeper_service.Base.Table.{find_by}
use sleeper_service.Base.Result.{Result, ok, err, Result-cases, after_request, state_of}
use sleeper_service.Models.Auth.{Role}
use sleeper_service.Models.Agents.{AgentVersion, VersionAlias}
use sleeper_service.State.{Db}
use sleeper_service.Access.{UserPrincipal}
use sleeper_service.Agents.{managed_agent}
use sleeper_service.Versions.{numbered, set_alias, delete_alias, is_alias}
use sleeper_service.Versions.Aliases.{
  AliasMap, alias_view, assign, HasKeys, alias_view-put_alias, alias_view-discard,
  HasKeys-put_alias, HasKeys-discard, pointed, same_key,
}

pub data AliasRequest : Type 0 where
  put : ℕ → String → ℕ → AliasRequest
  remove : ℕ → String → AliasRequest

abbrev pub perform : Db → UserPrincipal × AliasRequest → Db
perform db (p, put i s k) = after_request db (state_of (set_alias db p i s k))
perform db (p, remove i s) = after_request db (delete_alias db p i s)

pub perform_all : Db → List (UserPrincipal × AliasRequest) → Db
perform_all db [] = db
perform_all db (r ∷ rs) = perform_all (perform db r) rs

abbrev succeeded {ℓ} : {A : Type ℓ} → Result A → Bool
succeeded (ok a) = true
succeeded (err e) = false

-- Who may set an alias of an agent, and which version a number of the agent names.
abbrev pub manages : Db → UserPrincipal → ℕ → Bool
manages db p i = succeeded (managed_agent db p i Role.owner)

abbrev id_of : Option AgentVersion → Option ℕ
id_of none = none
id_of (some v) = some v.id

abbrev pub version_of : Db → ℕ → ℕ → Option ℕ
version_of db i k = id_of (find_by (numbered i k) db.versions)

-- The specification: on a map, with fixed roles and versions.
module _ (may : UserPrincipal → ℕ → Bool) (version : ℕ → ℕ → Option ℕ) where
  abbrev pub spec : AliasMap → UserPrincipal × AliasRequest → AliasMap
  spec m (p, put i s k) =
      if may p i then elim (version i k) [ none ↦ m | some v ↦ assign m i s (some v) ] else m
  spec m (p, remove i s) = if may p i then assign m i s none else m

  pub replay : AliasMap → List (UserPrincipal × AliasRequest) → AliasMap
  replay m [] = m
  replay m (r ∷ rs) = replay (spec m r) rs

-- Removing a key that is not there changes nothing.
assign_absent :
    (rows : List VersionAlias) (i : ℕ) (s : String)
    → find_by (is_alias i s) rows ≡ none
    → alias_view rows ≡ assign (alias_view rows) i s none
assign_absent rows i s e = fun_ext λ j. fun_ext λ t. elim (Bool-cases (i == j && str_eq s t)) [
  | inl b ↦
      let (ij, st) = same_key i s j t b in
      rw b (
        subst (λ k. alias_view rows k t ≡ none) ij
          (subst (λ k. alias_view rows i k ≡ none) st (ap pointed e)))
  | inr b ↦ rw b refl
]

-- One request: the table follows the specification, and the agents and versions stay.
abbrev Follows : Db → UserPrincipal × AliasRequest → Db → Type 0
Follows db r db' =
    (alias_view db'.aliases ≡ spec (manages db) (version_of db) (alias_view db.aliases) r)
    × HasKeys db'.aliases
    × (db' ≡ record db { aliases = db'.aliases })

module _ (db : Db) (p : UserPrincipal) (i : ℕ) (s : String) (h : HasKeys db.aliases) where
  Follows-put : (k : ℕ) → Follows db (p, put i s k) (perform db (p, put i s k))
  unfolding set_alias
  Follows-put k = elim (Result-cases (managed_agent db p i Role.owner)) [
    | inl (agent, m) ↦ elim (Option-cases (find_by (numbered i k) db.versions)) [
      | inl e ↦ rw (set_alias, m, e) (refl, h, refl)
      | inr (v, e) ↦
          rw (set_alias, m, e)
            (
              alias_view-put_alias i s db.aliases v.id,
              HasKeys-put_alias i s db.aliases v.id h,
              refl,
            )
    ]
    | inr (x, m) ↦ rw (set_alias, m) (refl, h, refl)
  ]

  Follows-remove : Follows db (p, remove i s) (perform db (p, remove i s))
  unfolding delete_alias
  Follows-remove = elim (Result-cases (managed_agent db p i Role.owner)) [
    | inl (agent, m) ↦ elim (Option-cases (find_by (is_alias i s) db.aliases)) [
      | inl e ↦ rw (delete_alias, m, e) (assign_absent db.aliases i s e, h, refl)
      | inr (v, e) ↦
          rw (delete_alias, m, e)
            (alias_view-discard i s db.aliases h, HasKeys-discard i s db.aliases h, refl)
    ]
    | inr (x, m) ↦ rw (delete_alias, m) (refl, h, refl)
  ]

follows :
    (db : Db) (r : UserPrincipal × AliasRequest) → HasKeys db.aliases → Follows db r (perform db r)
follows db (p, put i s k) h = Follows-put db p i s h k
follows db (p, remove i s) h = Follows-remove db p i s h

-- The owner, and the versions, are read from tables that no alias request changes.
replay_same :
    (db db' : Db) (m : AliasMap) (rs : List (UserPrincipal × AliasRequest))
    → db' ≡ record db { aliases = db'.aliases }
    → replay (manages db') (version_of db') m rs ≡ replay (manages db) (version_of db) m rs
unfolding managed_agent
replay_same db db' m rs e = ap (λ (d : Db). replay (manages d) (version_of d) m rs) e

-- Any sequence of requests that set and delete aliases, by any principals and with the refused ones among them, leaves
-- a table that is, as a map from agents and names to versions, what the specification gives: an owner's request
-- assigns the version of the number to the key, or removes the key, and every other request does nothing. The table is
-- taken to have at most one row for a key, as its primary key says.
pub perform_all-replay :
    (db : Db) (rs : List (UserPrincipal × AliasRequest))
    → HasKeys db.aliases
    → alias_view (perform_all db rs).aliases
      ≡ replay (manages db) (version_of db) (alias_view db.aliases) rs
unfolding perform_all replay
perform_all-replay db [] h = refl
perform_all-replay db (r ∷ rs) h =
    let (step, keys, same) = follows db r h in
    perform_all-replay (perform db r) rs keys
    ∙ replay_same db (perform db r) (alias_view (perform db r).aliases) rs same
    ∙ ap (λ m. replay (manages db) (version_of db) m rs) step

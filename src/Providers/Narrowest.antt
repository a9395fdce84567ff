-- ===== src/Providers/Narrowest.antt =====
-- The narrowest key wins: what a key that is set changes for an agent.
use mathlib.Core.Path.{subst}
use sleeper_service.Base.{
  ℕ, String, Bool, true, false, Option, some, List, [], ◌∷◌, ◌&&◌, not, ◌≡◌, refl, ap, ◌∙◌, arith,
  inl, inr,
}
use sleeper_service.Base.Tests.{
  ◌==◌, ==_iff, ==_refl, str_eq, str_eq_iff, Bool-cases, Option-cases, if◌then◌else◌,
}
use sleeper_service.Base.Table.{find_by, find_by-append, find_by-modify_by, find_by-modify_by_other}
use sleeper_service.Base.Result.{ok, bind_ok}
use sleeper_service.Models.Auth.{KeyScope}
use sleeper_service.Models.Agents.{Agent}
use sleeper_service.Models.Events.{ProviderCred}
use sleeper_service.State.{Db}
use sleeper_service.Access.{UserPrincipal, is_some}
use sleeper_service.Providers.{
  scope_eq, is_cred, key_at, or_wider, with_key, resolve_api_key, gate, put_cred, set_cred,
}

abbrev is_place : KeyScope → ℕ → String → KeyScope → ℕ → String → Bool
is_place s i q t j r = scope_eq s t && (i == j && str_eq q r)

scope_eq_sound : (s t : KeyScope) → scope_eq s t ≡ true → s ≡ t
scope_eq_sound KeyScope.tenant KeyScope.tenant h = refl
scope_eq_sound KeyScope.tenant KeyScope.team h = absurd (cc)
scope_eq_sound KeyScope.tenant KeyScope.agent h = absurd (cc)
scope_eq_sound KeyScope.team KeyScope.tenant h = absurd (cc)
scope_eq_sound KeyScope.team KeyScope.team h = refl
scope_eq_sound KeyScope.team KeyScope.agent h = absurd (cc)
scope_eq_sound KeyScope.agent KeyScope.tenant h = absurd (cc)
scope_eq_sound KeyScope.agent KeyScope.team h = absurd (cc)
scope_eq_sound KeyScope.agent KeyScope.agent h = refl

scope_eq_refl : (s : KeyScope) → scope_eq s s ≡ true
scope_eq_refl KeyScope.tenant = refl
scope_eq_refl KeyScope.team = refl
scope_eq_refl KeyScope.agent = refl

same_place :
    (s : KeyScope) (i : ℕ) (q : String) (t : KeyScope) (j : ℕ) (r : String)
    → is_place s i q t j r ≡ true
    → (s ≡ t) × (i ≡ j) × (q ≡ r)
same_place s i q t j r h =
    (scope_eq_sound s t (ground arith), ground (arith, ==_iff i j), ground (arith, str_eq_iff q r))

apart :
    (s : KeyScope) (i : ℕ) (q : String) (t : KeyScope) (j : ℕ) (r : String)
    → is_place s i q t j r ≡ false
    → (c : ProviderCred) → is_cred s i q c ≡ true
    → is_cred t j r c ≡ false
apart s i q t j r h c e =
    let (cs, ci, cq) = same_place c.scope c.scope_id c.provider s i q e in rw (cs, ci, cq) h

module _ (id : ℕ) (s : KeyScope) (i : ℕ) (q key : String) (rows : List ProviderCred) where
  abbrev added_cred : List ProviderCred
  added_cred = record { id = id; scope = s; scope_id = i; provider = q; credentials = key } ∷ []

  key_at-put_self : key_at (put_cred id s i q key rows) s i q ≡ some key
  unfolding put_cred
  key_at-put_self = elim (Option-cases (find_by (is_cred s i q) rows)) [
    | inl e ↦
        rw (e, find_by-append (is_cred s i q) rows added_cred)
          (rw (e, scope_eq_refl s, ==_refl i, (str_eq_iff q q).1 refl) refl)
    | inr (c, e) ↦
        rw (e, find_by-modify_by (is_cred s i q) (with_key key) (λ x. refl) rows) (rw e refl)
  ]

  key_at-put_other :
      (t : KeyScope) (j : ℕ) (r : String)
      → is_place s i q t j r ≡ false
      → key_at (put_cred id s i q key rows) t j r ≡ key_at rows t j r
  unfolding put_cred
  key_at-put_other t j r other = elim (Option-cases (find_by (is_cred s i q) rows)) [
    | inl e ↦
        rw (e, find_by-append (is_cred t j r) rows added_cred)
          (elim (Option-cases (find_by (is_cred t j r) rows)) [
            | inl z ↦ rw (z, other) refl
            | inr (c, z) ↦ rw z refl
          ])
    | inr (c, e) ↦
        rw
          (
            e,
            find_by-modify_by_other (is_cred s i q) (is_cred t j r) (apart s i q t j r other)
                (with_key key) (λ x. refl) rows,
          )
          refl
  ]

  key_at-put :
      (t : KeyScope) (j : ℕ) (r : String)
      → key_at (put_cred id s i q key rows) t j r
        ≡ (if is_place s i q t j r then some key else key_at rows t j r)
  key_at-put t j r = elim (Bool-cases (is_place s i q t j r)) [
    | inr o ↦ rw o (key_at-put_other t j r o)
    | inl e ↦
        let (st, ij, qr) = same_place s i q t j r e in
        rw e (
          subst (λ x. key_at (put_cred id s i q key rows) x j r ≡ some key) st
            (subst (λ x. key_at (put_cred id s i q key rows) s x r ≡ some key) ij
              (subst (λ x. key_at (put_cred id s i q key rows) s i x ≡ some key) qr
                key_at-put_self)))
  ]

-- Whether a key at the place is the one that the agent uses for the provider: the place is one of the agent's, and no
-- narrower one has a key.
abbrev pub wins : List ProviderCred → KeyScope → ℕ → String → Agent → String → Bool
wins rows KeyScope.agent i q agent r = i == agent.id && str_eq q r
wins rows KeyScope.team i q agent r =
    (i == agent.team_id && str_eq q r) && not (is_some (key_at rows KeyScope.agent agent.id r))
wins rows KeyScope.tenant i q agent r =
    (i == agent.tenant_id && str_eq q r)
    && (not (is_some (key_at rows KeyScope.agent agent.id r))
        && not (is_some (key_at rows KeyScope.team agent.team_id r)))

abbrev narrowest : List ProviderCred → Agent → String → Option String
narrowest rows agent r = or_wider (key_at rows KeyScope.agent agent.id r) (
    or_wider (key_at rows KeyScope.team agent.team_id r)
      (key_at rows KeyScope.tenant agent.tenant_id r))

narrowest-put :
    (id : ℕ) (s : KeyScope) (i : ℕ) (q key : String) (rows : List ProviderCred) (agent : Agent)
    (r : String)
    → narrowest (put_cred id s i q key rows) agent r
      ≡ (if wins rows s i q agent r then some key else narrowest rows agent r)
narrowest-put id KeyScope.agent i q key rows agent r = ground (
  arith,
  key_at-put id KeyScope.agent i q key rows KeyScope.agent agent.id r,
  key_at-put id KeyScope.agent i q key rows KeyScope.team agent.team_id r,
  key_at-put id KeyScope.agent i q key rows KeyScope.tenant agent.tenant_id r,
)
narrowest-put id KeyScope.team i q key rows agent r = ground (
  arith,
  key_at-put id KeyScope.team i q key rows KeyScope.agent agent.id r,
  key_at-put id KeyScope.team i q key rows KeyScope.team agent.team_id r,
  key_at-put id KeyScope.team i q key rows KeyScope.tenant agent.tenant_id r,
)
narrowest-put id KeyScope.tenant i q key rows agent r = ground (
  arith,
  key_at-put id KeyScope.tenant i q key rows KeyScope.agent agent.id r,
  key_at-put id KeyScope.tenant i q key rows KeyScope.team agent.team_id r,
  key_at-put id KeyScope.tenant i q key rows KeyScope.tenant agent.tenant_id r,
)

-- A key is set only by one who passes the gate of its scope. After that it is the key that an agent resolves to for a
-- provider exactly if it is for that provider, the scope is the agent, its team or its tenant, and no narrower scope of
-- the agent has a key for it; otherwise the agent resolves to what it resolved to before.
pub set_cred-resolve_api_key :
    (db : Db) (p : UserPrincipal) (scope : KeyScope) (scope_id : ℕ) (provider key : String)
    (agent : Agent) (asked : String) {db' : Db}
    → set_cred db p scope scope_id provider key ≡ ok db'
    → (gate db p scope scope_id ≡ ok tt)
      × (resolve_api_key db' agent asked ≡ (
          if wins db.provider_creds scope scope_id provider agent asked
          then some key
          else resolve_api_key db agent asked))
unfolding set_cred resolve_api_key
set_cred-resolve_api_key db p scope scope_id provider key agent asked {db'} h =
    let (u, passed, h1) = bind_ok (gate db p scope scope_id) _ h in
    let rows : db'.provider_creds
        ≡ put_cred db.next_id scope scope_id provider key db.provider_creds =
      ground arith in
    (
      passed,
      ap (λ cs. narrowest cs agent asked) rows
          ∙ narrowest-put db.next_id scope scope_id provider key db.provider_creds agent asked,
    )

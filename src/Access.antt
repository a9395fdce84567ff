-- ===== src/Access.antt =====
-- auth/principal.py and auth/rbac.py, with the checks of api/v1/jobs.py and api/v1/files.py on who may use
-- an agent or a file. The proofs are in the modules below.
pub mod Roles
pub mod RateLimit
pub mod Surface
mod Tests
use sleeper_service.Base.{
  ℕ, Bool, true, false, Option, none, some, List, [], ◌∷◌, ◌&&◌, ◌||◌, map, not, ◌+◌, ◌/◌,
}
use sleeper_service.Base.Tests.{leb, ltb, ◌==◌, if◌then◌else◌}
use sleeper_service.Base.Lists.{any, select}
use sleeper_service.Base.Table.{find, find_by}
use sleeper_service.Base.Result.{
  Result, ok, err, ◌>>=◌, ◌>>◌, guard, or_raise, unauthorized, forbidden, not_found, rate_limited,
}
use sleeper_service.Models.Auth.{
  Role, role_rank, is_owner, KeyScope, Tenant, Team, User, TeamMember, ApiKey, KeyShape, user_key,
  invoke_key, user_keyed,
}
use sleeper_service.Models.Agents.{Agent, agent_keyed}

-- `roles` is the dict from a team to the user's role in it, as the list of its items.
pub record UserPrincipal : Type 0 where
  pub user : User
  pub roles : List (ℕ × Role)

pub record InvokePrincipal : Type 0 where
  pub key : ApiKey
  pub scope : KeyScope
  pub scope_id : ℕ

pub data Principal : Type 0 where
  user : UserPrincipal → Principal
  invoke : InvokePrincipal → Principal

-- `principal.roles.get(team_id)`
abbrev pub role_in : ℕ → List (ℕ × Role) → Option Role
role_in t [] = none
role_in t ((u, r) ∷ rs) = if u == t then some r else role_in t rs

abbrev pub is_some {ℓ} : {A : Type ℓ} → Option A → Bool
is_some none = false
is_some (some a) = true

unfoldable pub has_role : UserPrincipal → ℕ → Role → Bool
has_role p team_id min_role = if p.user.is_superuser then true else elim (role_in team_id p.roles) [
  | none ↦ false
  | some role ↦ leb (role_rank min_role) (role_rank role)
]

unfoldable pub require_role : UserPrincipal → ℕ → Role → Result (Unit {0})
unfolding has_role
require_role p team_id min_role =
    if has_role p team_id min_role
    then ok tt
    else elim (role_in team_id p.roles) [ none ↦ err not_found | some _ ↦ err forbidden ]

unfoldable pub visible_team_ids : List Team → UserPrincipal → ℕ → List ℕ
visible_team_ids teams p tenant_id =
    let all_ids =
      map (λ (t : Team). t.id) (select (λ (t : Team). t.tenant_id == tenant_id) teams) in
    if p.user.is_superuser then all_ids else select (λ tid. is_some (role_in tid p.roles)) all_ids

owns_team : UserPrincipal → ℕ → Bool
owns_team p team_id = elim (role_in team_id p.roles) [ none ↦ false | some r ↦ is_owner r ]

unfoldable pub is_tenant_admin : List Team → UserPrincipal → ℕ → Bool
unfolding owns_team
is_tenant_admin teams p tenant_id =
    if p.user.is_superuser
    then true
    else elim (find_by (λ (t : Team). (t.tenant_id == tenant_id) && t.is_org_team) teams) [
      | none ↦ false
      | some org ↦ owns_team p org.id
    ]

abbrev pub is_empty {ℓ} : {A : Type ℓ} → List A → Bool
is_empty [] = true
is_empty (x ∷ xs) = false

unfoldable pub require_tenant_admin : List Team → UserPrincipal → ℕ → Result (Unit {0})
unfolding is_tenant_admin visible_team_ids
require_tenant_admin teams p tenant_id =
    if is_tenant_admin teams p tenant_id
    then ok tt
    else if is_empty (visible_team_ids teams p tenant_id)
    then err not_found
    else err forbidden

-- The counters of the rate limiter, one for each key and window of a minute. Redis drops a counter after
-- its window, when no request reads it any more.
pub record Counter : Type 0 where
  pub key_id : ℕ
  pub window : ℕ
  pub count : ℕ

abbrev pub counter_for : ℕ → ℕ → Counter → Bool
counter_for key_id window c = (c.key_id == key_id) && (c.window == window)

-- `await r.incr(redis_key)`
incr : ℕ → ℕ → List Counter → List Counter × ℕ
incr k w [] = (record { key_id = k; window = w; count = 1 } ∷ [], 1)
incr k w (c ∷ cs) =
    let rest = incr k w cs in
    if counter_for k w c
    then (record c { count = c.count + 1 } ∷ cs, c.count + 1)
    else (c ∷ rest.0, rest.1)

-- `now` is `int(time.time())`.
unfoldable pub enforce_rate_limit : ℕ → ApiKey → List Counter → List Counter × Result (Unit {0})
unfolding incr
enforce_rate_limit now key counters = elim key.rate_limit [
  | none ↦ (counters, ok tt)
  | some limit ↦
      let (counters', count) = incr key.id (now / 60) counters in
      (counters', if ltb limit count then err rate_limited else ok tt)
]

-- The memberships of a user, as the dict that a principal carries.
abbrev pub roles_of : ℕ → List TeamMember → List (ℕ × Role)
roles_of user_id members =
    map (λ (m : TeamMember). (m.team_id, m.role))
      (select (λ (m : TeamMember). m.user_id == user_id) members)

-- The key's kind decides which principal it resolves to.
principal_of : List User → List TeamMember → ApiKey → KeyShape → Result Principal
principal_of users members key (invoke_key scope scope_id) =
    ok (invoke (record { key = key; scope = scope; scope_id = scope_id }))
principal_of users members key (user_key user_id) = do
  u ← or_raise (find user_id users) unauthorized
  ok (user (record { user = u; roles = roles_of user_id members }))

-- The counted request, then the principal, which is not looked up when the limit is passed.
limited : List Counter × Result (Unit {0}) → Result Principal → List Counter × Result Principal
limited (counters, ok _) p = (counters, p)
limited (counters, err e) p = (counters, err e)

-- `token_hash` is the hash of the token of a well-formed Authorization header, and none without one.
unfoldable pub get_principal :
    List ApiKey
    → List User
    → List TeamMember
    → ℕ
    → Option ℕ
    → List Counter
    → List Counter × Result Principal
unfolding enforce_rate_limit principal_of limited
get_principal keys users members now none counters = (counters, err unauthorized)
get_principal keys users members now (some token_hash) counters =
    elim (find_by (λ (k : ApiKey). k.key_hash == token_hash) keys) [
      | none ↦ (counters, err unauthorized)
      | some key ↦
          if is_some key.revoked_at
          then (counters, err unauthorized)
          else limited (enforce_rate_limit now key counters)
              (principal_of users members key key.shape)
    ]

unfoldable pub get_user_principal : Principal → Result UserPrincipal
get_user_principal (user p) = ok p
get_user_principal (invoke p) = err forbidden

unfoldable pub invoke_covers : InvokePrincipal → Agent → Bool
invoke_covers p a = elim p.scope [
  | KeyScope.agent ↦ p.scope_id == a.id
  | KeyScope.team ↦ p.scope_id == a.team_id
  | KeyScope.tenant ↦ p.scope_id == a.tenant_id
]

sees : Principal → Agent → Bool
unfolding invoke_covers
sees (invoke p) a = invoke_covers p a
sees (user p) a = p.user.is_superuser || is_some (role_in a.team_id p.roles)

may_submit : Principal → Agent → Bool
unfolding has_role
may_submit (invoke p) a = true
may_submit (user p) a = has_role p a.team_id Role.editor

-- The agent for a principal that may read it, or submit to it.
unfoldable pub get_agent_for : List Agent → Principal → ℕ → Bool → Result Agent
unfolding sees may_submit
get_agent_for agents p agent_id submit = do
  agent ← or_raise (find agent_id agents) not_found
  guard (sees p agent) not_found
  guard (not submit || may_submit p agent) forbidden
  ok agent

-- Files are tenant-scoped.
unfoldable pub check_tenant_access : List Team → Principal → ℕ → Result (Unit {0})
unfolding visible_team_ids
check_tenant_access teams (user p) tenant_id =
    guard (p.user.is_superuser || not (is_empty (visible_team_ids teams p tenant_id))) not_found
check_tenant_access teams (invoke p) tenant_id = elim p.scope [
  | KeyScope.tenant ↦ guard (p.scope_id == tenant_id) not_found
  | _ ↦ err not_found
]

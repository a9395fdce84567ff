-- ===== src/Access/Surface.antt =====
-- What an API key reaches: agents and files.
use sleeper_service.Base.{ℕ, ◌≡◌, ◌⊎◌, ◌↔◌, Bool, true, none, some, List, arith, inl, inr}
use sleeper_service.Base.Tests.{◌==◌, Option-cases}
use sleeper_service.Base.Table.{find, find_by}
use sleeper_service.Base.Result.{Result, ok, err}
use sleeper_service.Models.Auth.{
  Role, KeyScope, Team, User, TeamMember, ApiKey, user_key, invoke_key, user_keyed,
}
use sleeper_service.Models.Agents.{Agent, agent_keyed}
use sleeper_service.Access.{
  Principal, InvokePrincipal, UserPrincipal, user, invoke, get_agent_for, check_tenant_access,
  Counter, get_principal, principal_of, limited, roles_of, enforce_rate_limit,
}
use sleeper_service.Access.Roles.{HoldsRole, has_role-HoldsRole}

-- An agent that an invoke key gets lies in the tenant, the team or the agent that is the key's scope.
abbrev pub InScope : InvokePrincipal → Agent → Type 0
InScope p a =
    ((p.scope ≡ KeyScope.agent) × (p.scope_id ≡ a.id))
    ⊎ ((p.scope ≡ KeyScope.team) × (p.scope_id ≡ a.team_id))
    ⊎ ((p.scope ≡ KeyScope.tenant) × (p.scope_id ≡ a.tenant_id))

module _ (agents : List Agent) (agent_id : ℕ) (submit : Bool) where
  -- An agent that an invoke key gets, to read or to submit to, lies in the scope of the key.
  pub get_agent_for-InScope :
      (p : InvokePrincipal) {a : Agent}
      → get_agent_for agents (invoke p) agent_id submit ≡ ok a
      → (find agent_id agents ≡ some a) × InScope p a
  unfolding get_agent_for
  get_agent_for-InScope p h = ground arith

-- A user who may submit jobs to an agent is a superuser or at least an editor of the agent's team.
pub get_agent_for-HoldsRole :
    (agents : List Agent) (p : UserPrincipal) (agent_id : ℕ) {a : Agent}
    → get_agent_for agents (user p) agent_id true ≡ ok a
    → (p.user.is_superuser ≡ true) ⊎ HoldsRole p a.team_id Role.editor
unfolding get_agent_for
get_agent_for-HoldsRole agents p agent_id {a} h =
    ground (arith, has_role-HoldsRole p a.team_id Role.editor)

-- An invoke key reads and writes the files of a tenant exactly if its scope is that tenant.
pub check_tenant_access_invoke :
    (teams : List Team) (p : InvokePrincipal) (tenant_id : ℕ)
    → (check_tenant_access teams (invoke p) tenant_id ≡ ok tt)
      ↔ ((p.scope ≡ KeyScope.tenant) × (p.scope_id ≡ tenant_id))
unfolding check_tenant_access
check_tenant_access_invoke teams p tenant_id = ground arith

-- The principal of a key: of a user's key that user, with the roles of its memberships, and of an invoke key its scope.
abbrev pub SpeaksFor : List User → List TeamMember → ApiKey → Principal → Type 0
SpeaksFor users members key (user p) =
    (i : ℕ) × (key.shape ≡ user_key i)
    × (find i users ≡ some p.user)
    × (p.roles ≡ roles_of i members)
SpeaksFor users members key (invoke p) = (p.key ≡ key) × (key.shape ≡ invoke_key p.scope p.scope_id)

speaks_for :
    (users : List User) (members : List TeamMember) (key : ApiKey) (p : Principal)
    → principal_of users members key key.shape ≡ ok p
    → SpeaksFor users members key p
unfolding principal_of
speaks_for users members key (user p) h = ground arith
speaks_for users members key (invoke p) h = ground arith

limited_ok :
    (r : List Counter × Result (Unit {0})) (q : Result Principal) {p : Principal}
    → (limited r q).1 ≡ ok p
    → q ≡ ok p
unfolding limited
limited_ok (cs, ok _) q h = h
limited_ok (cs, err e) q h = cc

-- An accepted token is that of a stored key that was not revoked. The key of a user gives that user and exactly the
-- roles of its memberships, and an invoke key gives its own scope.
pub get_principal-SpeaksFor :
    (keys : List ApiKey) (users : List User) (members : List TeamMember) (now token : ℕ)
    (counters : List Counter) (p : Principal)
    → (get_principal keys users members now (some token) counters).1 ≡ ok p
    → (key : ApiKey) × (find_by (λ (k : ApiKey). k.key_hash == token) keys ≡ some key)
      × (key.revoked_at ≡ none)
      × SpeaksFor users members key p
unfolding get_principal
get_principal-SpeaksFor keys users members now token counters p h =
    elim (Option-cases (find_by (λ (k : ApiKey). k.key_hash == token) keys)) [
      | inl absent ↦ absurd (ground arith)
      | inr (key, found) ↦ (
        key,
        found,
        ground arith,
        speaks_for users members key p (
            limited_ok (enforce_rate_limit now key counters)
              (principal_of users members key key.shape) (ground arith)),
      )
    ]

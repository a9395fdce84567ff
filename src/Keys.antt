-- ===== src/Keys.antt =====
-- api/v1/api_keys.py: the keys that invoke agents, and who may create and revoke them. A key is drawn outside; the
-- model has its id and its hash. The name of a key is not modelled, and the listing only reads.
pub mod Revoked
mod Tests
use sleeper_service.Base.{ℕ, Bool, Option, none, some, List, [], ◌∷◌, ◌++◌, not}
use sleeper_service.Base.Tests.{if◌then◌else◌}
use sleeper_service.Base.Table.{Keyed, find, modify}
use sleeper_service.Base.Result.{
  Result, ok, err, ◌>>=◌, ◌>>◌, guard, or_raise, not_found, forbidden,
}
use sleeper_service.Models.Auth.{
  Role, KeyScope, KeyShape, user_key, invoke_key, ApiKey, tenant_keyed, team_keyed,
}
use sleeper_service.Models.Agents.{agent_keyed}
use sleeper_service.State.{Db}
use sleeper_service.Access.{UserPrincipal, is_some, require_role, is_tenant_admin}

instance abbrev pub api_key_keyed : Keyed ApiKey
api_key_keyed = record { key = λ k. k.id }

-- An administrator of the scope: of the tenant, or an owner of the team or of the agent's team.
unfoldable pub require_scope_admin : Db → UserPrincipal → KeyScope → ℕ → Result (Unit {0})
require_scope_admin db p KeyScope.tenant scope_id = do
  or_raise (find scope_id db.tenants) not_found
  guard (is_tenant_admin db.teams p scope_id) forbidden
require_scope_admin db p KeyScope.team scope_id = do
  or_raise (find scope_id db.teams) not_found
  require_role p scope_id Role.owner
require_scope_admin db p KeyScope.agent scope_id = do
  agent ← or_raise (find scope_id db.agents) not_found
  require_role p agent.team_id Role.owner

-- `InvokeKeyCreate`
pub record InvokeKeyCreate : Type 0 where
  pub scope : KeyScope
  pub scope_id : ℕ
  pub rate_limit : Option ℕ

abbrev pub new_key : ℕ → ℕ → InvokeKeyCreate → ApiKey
new_key id key_hash body = record {
  id = id;
  shape = invoke_key body.scope body.scope_id;
  key_hash = key_hash;
  rate_limit = body.rate_limit;
  revoked_at = none;
}

unfoldable pub create_invoke_key :
    Db → UserPrincipal → ℕ → ℕ → InvokeKeyCreate → List ApiKey → Result (List ApiKey)
create_invoke_key db p id key_hash body keys = do
  require_scope_admin db p body.scope body.scope_id
  ok (keys ++ new_key id key_hash body ∷ [])

-- The scope of an invoke key; a user's key is not found here.
abbrev pub scope_of : KeyShape → Option (KeyScope × ℕ)
scope_of (user_key user_id) = none
scope_of (invoke_key scope scope_id) = some (scope, scope_id)

-- The time of the first revocation is kept.
abbrev pub revoke : Db → ApiKey → ApiKey
revoke db k = if is_some k.revoked_at then k else record k { revoked_at = some db.now }

unfoldable pub revoke_invoke_key : Db → UserPrincipal → ℕ → List ApiKey → Result (List ApiKey)
revoke_invoke_key db p key_id keys = do
  key ← or_raise (find key_id keys) not_found
  scope ← or_raise (scope_of key.shape) not_found
  require_scope_admin db p scope.0 scope.1
  ok (modify key_id (revoke db) keys)

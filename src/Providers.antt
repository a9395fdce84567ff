-- ===== src/Providers.antt =====
-- runtime/providers.py and api/v1/provider_creds.py: the keys of model providers at the three scopes, and which of them
-- an agent's jobs use. A stored key stands for its encryption, which is undone when it is read.
pub mod Narrowest
mod Tests
use sleeper_service.Base.{
  ℕ, suc, String, Bool, true, false, Option, none, some, List, [], ◌∷◌, ◌++◌, ◌&&◌, ◌||◌, not,
}
use sleeper_service.Base.Tests.{◌==◌, str_eq, if◌then◌else◌}
use sleeper_service.Base.Lists.{any}
use sleeper_service.Base.Table.{find, find_by, modify_by, discard_by}
use sleeper_service.Base.Result.{Result, ok, ◌>>=◌, ◌>>◌, guard, or_raise, not_found}
use sleeper_service.Models.Auth.{Role, KeyScope, tenant_keyed, team_keyed}
use sleeper_service.Models.Agents.{Agent}
use sleeper_service.Models.Events.{ProviderCred}
use sleeper_service.State.{Db}
use sleeper_service.Access.{UserPrincipal, is_some, role_in, require_role, require_tenant_admin}
use sleeper_service.Agents.{get_visible_agent}

abbrev pub scope_eq : KeyScope → KeyScope → Bool
scope_eq KeyScope.tenant KeyScope.tenant = true
scope_eq KeyScope.team KeyScope.team = true
scope_eq KeyScope.agent KeyScope.agent = true
scope_eq _ _ = false

abbrev pub is_cred : KeyScope → ℕ → String → ProviderCred → Bool
is_cred scope scope_id provider c =
    scope_eq c.scope scope && (c.scope_id == scope_id && str_eq c.provider provider)

abbrev pub key_of : Option ProviderCred → Option String
key_of none = none
key_of (some c) = some c.credentials

-- The key that a scope has for a provider.
abbrev pub key_at : List ProviderCred → KeyScope → ℕ → String → Option String
key_at rows scope scope_id provider = key_of (find_by (is_cred scope scope_id provider) rows)

abbrev pub or_wider : Option String → Option String → Option String
or_wider none wider = wider
or_wider (some key) wider = some key

-- The loop over the scopes of the agent.
unfoldable pub resolve_api_key : Db → Agent → String → Option String
resolve_api_key db agent provider =
    or_wider (key_at db.provider_creds KeyScope.agent agent.id provider) (
      or_wider (key_at db.provider_creds KeyScope.team agent.team_id provider)
        (key_at db.provider_creds KeyScope.tenant agent.tenant_id provider))

-- The administrator of the scope, to whom the target is visible.
unfoldable pub gate : Db → UserPrincipal → KeyScope → ℕ → Result (Unit {0})
gate db p KeyScope.tenant scope_id = do
  or_raise (find scope_id db.tenants) not_found
  require_tenant_admin db.teams p scope_id
gate db p KeyScope.team scope_id = do
  team ← or_raise (find scope_id db.teams) not_found
  guard (p.user.is_superuser || is_some (role_in team.id p.roles)) not_found
  require_role p team.id Role.owner
gate db p KeyScope.agent scope_id = do
  agent ← get_visible_agent db p scope_id
  require_role p agent.team_id Role.owner

abbrev pub with_key : String → ProviderCred → ProviderCred
with_key key c = record c { credentials = key }

-- The row of the scope and the provider is added, or gets the new key.
unfoldable pub put_cred : ℕ → KeyScope → ℕ → String → String → List ProviderCred → List ProviderCred
put_cred id scope scope_id provider key rows =
    if is_some (find_by (is_cred scope scope_id provider) rows)
    then modify_by (is_cred scope scope_id provider) (with_key key) rows
    else rows
      ++ record {
        id = id;
        scope = scope;
        scope_id = scope_id;
        provider = provider;
        credentials = key;
      }
        ∷ []

unfoldable pub set_cred : Db → UserPrincipal → KeyScope → ℕ → String → String → Result Db
set_cred db p scope scope_id provider key = do
  gate db p scope scope_id
  ok (record db {
    provider_creds = put_cred db.next_id scope scope_id provider key db.provider_creds;
    next_id = suc db.next_id;
  })

unfoldable pub delete_cred : Db → UserPrincipal → KeyScope → ℕ → String → Result Db
delete_cred db p scope scope_id provider = do
  gate db p scope scope_id
  or_raise (find_by (is_cred scope scope_id provider) db.provider_creds) not_found
  ok (record db { provider_creds = discard_by (is_cred scope scope_id provider) db.provider_creds })

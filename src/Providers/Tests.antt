-- ===== src/Providers/Tests.antt =====
-- The team of an agent sets a key for a provider that the agent has none for.
use sleeper_service.Base.{◌≡◌, refl, some}
use sleeper_service.Base.Tests.{if◌then◌else◌}
use sleeper_service.Base.Result.{ok}
use sleeper_service.Models.Auth.{KeyScope}
use sleeper_service.State.{Db}
use sleeper_service.Access.{require_role, has_role}
use sleeper_service.Providers.{resolve_api_key, gate, put_cred, set_cred}
use sleeper_service.Providers.Narrowest.{wins, set_cred-resolve_api_key}
use sleeper_service.Samples.{db, helper, ada_principal}

abbrev keyed_db : Db
keyed_db = record db {
  provider_creds = put_cred 100 KeyScope.team 2 "openai" "sk-team" db.provider_creds;
  next_id = 101;
}

sets : set_cred db ada_principal KeyScope.team 2 "openai" "sk-team" ≡ ok keyed_db
unfolding set_cred gate require_role has_role
sets = refl

set_cred-resolve_api_key_example :
    (gate db ada_principal KeyScope.team 2 ≡ ok tt)
    × (resolve_api_key keyed_db helper "openai" ≡ (
        if wins db.provider_creds KeyScope.team 2 "openai" helper "openai"
        then some "sk-team"
        else resolve_api_key db helper "openai"))
set_cred-resolve_api_key_example =
    set_cred-resolve_api_key db ada_principal KeyScope.team 2 "openai" "sk-team" helper "openai"
      {db' = keyed_db} sets

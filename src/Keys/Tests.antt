-- ===== src/Keys/Tests.antt =====
-- An owner of the agent's team revokes the agent's key.
use sleeper_service.Base.{◌≡◌, ◌≢◌, ◌⊎◌, refl, arith, some, none, List, [], ◌∷◌}
use sleeper_service.Base.Result.{ok, err, unauthorized}
use sleeper_service.Models.Auth.{KeyScope, invoke_key, ApiKey}
use sleeper_service.Access.{get_principal, require_role, has_role}
use sleeper_service.Keys.{require_scope_admin, revoke_invoke_key}
use sleeper_service.Keys.Revoked.{HasHashes, MayRevoke, revoke_invoke_key-IsRefused}
use sleeper_service.Samples.{db, ada_principal, noon}

abbrev helper_key : ApiKey
helper_key = record {
  id = 50;
  shape = invoke_key KeyScope.agent 4;
  key_hash = 77;
  rate_limit = some 10;
  revoked_at = none;
}

abbrev keys : List ApiKey
keys = helper_key ∷ []

keys-HasHashes : HasHashes keys
keys-HasHashes h = ground arith

abbrev keys_after : List ApiKey
keys_after = record helper_key { revoked_at = some noon } ∷ []

revokes : revoke_invoke_key db ada_principal 50 keys ≡ ok keys_after
unfolding revoke_invoke_key require_scope_admin require_role has_role
revokes = refl

revoke_invoke_key-IsRefused_example :
    (key : ApiKey) × MayRevoke [] [] db ada_principal 50 keys key
    × (((77 ≡ key.key_hash)
          × (get_principal keys_after [] [] 0 (some 77) [] ≡ ([], err unauthorized)))
        ⊎ ((77 ≢ key.key_hash)
            × (get_principal keys_after [] [] 0 (some 77) []
                ≡ get_principal keys [] [] 0 (some 77) [])))
revoke_invoke_key-IsRefused_example =
    revoke_invoke_key-IsRefused [] [] db ada_principal 50 keys 77 0 [] {keys' = keys_after}
      keys-HasHashes revokes

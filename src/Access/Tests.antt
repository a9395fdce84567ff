-- ===== src/Access/Tests.antt =====
-- Keys, roles and limits at concrete principals.
use sleeper_service.Base.{◌≡◌, refl, none, some, [], ◌∷◌, min, ◌-◌}
use sleeper_service.Base.Table.{find_by}
use sleeper_service.Base.Tests.{◌==◌}
use sleeper_service.Base.Result.{ok}
use sleeper_service.Models.Auth.{ApiKey, user_keyed}
use sleeper_service.Models.Agents.{agent_keyed}
use sleeper_service.Samples.{ada, ada_owns, ada_principal, ada_key, tenant_key}
use sleeper_service.Access.{user, get_principal}
use sleeper_service.Access.RateLimit.{let_through, let_through_exact, total, seen}
use sleeper_service.Access.Surface.{SpeaksFor, get_principal-SpeaksFor}

let_through_exact_example :
    let_through ada_key (60 ∷ 65 ∷ 70 ∷ []) [] ≡ min (total (60 ∷ 65 ∷ 70 ∷ [])) (2 - seen 20 1 [])
let_through_exact_example =
    let_through_exact ada_key 2 1 (60 ∷ 65 ∷ 70 ∷ []) [] refl (refl, (refl, (refl, tt)))

ada_logs_in :
    (get_principal (ada_key ∷ tenant_key ∷ []) (ada ∷ []) (ada_owns ∷ []) 60 (some 77) []).1
    ≡ ok (user ada_principal)
unfolding get_principal
ada_logs_in = refl

get_principal-SpeaksFor_example :
    (key : ApiKey) × (find_by (λ (k : ApiKey). k.key_hash == 77) (ada_key ∷ tenant_key ∷ [])
      ≡ some key)
    × (key.revoked_at ≡ none)
    × SpeaksFor (ada ∷ []) (ada_owns ∷ []) key (user ada_principal)
get_principal-SpeaksFor_example =
    get_principal-SpeaksFor (ada_key ∷ tenant_key ∷ []) (ada ∷ []) (ada_owns ∷ []) 60 77 []
      (user ada_principal) ada_logs_in

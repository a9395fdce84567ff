-- ===== src/Versions/Tests.antt =====
-- The owner of an agent adds a version, promotes it, and keeps an alias for the first.
use sleeper_service.Base.{◌≡◌, true, none, List, [], ◌∷◌, refl, arith}
use sleeper_service.Models.Json.{end}
use sleeper_service.Access.{UserPrincipal}
use sleeper_service.Decisions.{Adapters}
use sleeper_service.Versions.{VersionCreate, last_version_no}
use sleeper_service.Versions.Numbers.{AreNumbered}
use sleeper_service.Versions.Pointers.{IsConsistent}
use sleeper_service.Versions.Aliases.{alias_view, HasKeys}
use sleeper_service.Versions.Refinement.{
  AliasRequest, perform_all, replay, manages, version_of, perform_all-replay,
}
use sleeper_service.Versions.Serve.{
  Request, submit_version, promote, put, serve, serve-IsConsistent,
}
use sleeper_service.Samples.{db, helper_v1, ada_principal}

abbrev adapters : Adapters
adapters = record { openai_names = λ q. none; jev_valid = λ q. true }

abbrev second : VersionCreate
second = record {
  prompt = "Help more.";
  model = "openai/small";
  params = end;
  max_iterations = 5;
  timeout_s = 60;
  tool_grants = [];
  data_store_grants = [];
  input_schema = none;
  output_schema = none;
}

abbrev requests : List (UserPrincipal × Request)
requests =
    (ada_principal, submit_version 4 second)
    ∷ (ada_principal, promote 4 2)
    ∷ (ada_principal, put 4 "prod" 1)
    ∷ []

one_numbered : AreNumbered (helper_v1 ∷ [])
unfolding last_version_no
one_numbered i k low_k le = ground arith

db-IsConsistent : IsConsistent db
db-IsConsistent = record {
  fresh = (omega arith, tt);
  ids = (refl, tt);
  numbers = one_numbered;
  current = ((helper_v1, refl, refl), tt);
  alias = tt;
}

serve-IsConsistent_example : IsConsistent (serve adapters db requests)
serve-IsConsistent_example = serve-IsConsistent adapters db requests db-IsConsistent

abbrev alias_requests : List (UserPrincipal × AliasRequest)
alias_requests =
    (ada_principal, AliasRequest.put 4 "prod" 1)
    ∷ (ada_principal, AliasRequest.put 4 "dev" 2)
    ∷ (ada_principal, AliasRequest.remove 4 "prod")
    ∷ []

no_rows : HasKeys db.aliases
no_rows i s = omega arith

perform_all-replay_example :
    alias_view (perform_all db alias_requests).aliases
    ≡ replay (manages db) (version_of db) (alias_view db.aliases) alias_requests
perform_all-replay_example = perform_all-replay db alias_requests no_rows

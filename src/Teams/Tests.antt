-- ===== src/Teams/Tests.antt =====
-- A team whose only owner is asked to leave, and is not let go.
use sleeper_service.Base.{arith, [], ◌∷◌}
use sleeper_service.Models.Auth.{Role}
use sleeper_service.Teams.{Directory}
use sleeper_service.Teams.Owners.{IsOwned, serve, serve-IsOwned, set, remove}
use sleeper_service.Samples.{acme, support, ada, ada_owns, ada_principal}

abbrev directory : Directory
directory = record {
  tenants = acme ∷ [];
  teams = support ∷ [];
  users = ada ∷ [];
  members = ada_owns ∷ [];
  next_id = 50;
}

directory-IsOwned : IsOwned directory
directory-IsOwned = record { owned = (omega arith, tt); fresh = (omega arith, tt) }

serve-IsOwned_example :
    IsOwned (serve directory (remove ada_principal 2 3 ∷ set ada_principal 2 3 Role.viewer ∷ []))
serve-IsOwned_example =
    serve-IsOwned directory (remove ada_principal 2 3 ∷ set ada_principal 2 3 Role.viewer ∷ [])
      directory-IsOwned

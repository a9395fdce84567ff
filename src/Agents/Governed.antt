-- ===== src/Agents/Governed.antt =====
-- Who changes the options that govern an agent's learning.
use sleeper_service.Base.{ℕ, String, ◌≡◌, ◌⊎◌, true, some, arith}
use sleeper_service.Base.Lists.{All}
use sleeper_service.Base.Table.{find}
use sleeper_service.Base.Result.{ok}
use sleeper_service.Models.Json.{Fields, get}
use sleeper_service.Models.Values.{value_eq, or_null}
use sleeper_service.Models.Auth.{Role}
use sleeper_service.Models.Agents.{Agent, agent_keyed}
use sleeper_service.State.{Db}
use sleeper_service.Access.{UserPrincipal, require_role}
use sleeper_service.Access.Roles.{HoldsRole, require_role_verdict}
use sleeper_service.Agents.{managed_agent, get_visible_agent, governed_option_keys}

module _ (db : Db) (p : UserPrincipal) (agent_id : ℕ) where
  pub managed_agent_ok :
      (role : Role) {a : Agent}
      → managed_agent db p agent_id role ≡ ok a
      → (find agent_id db.agents ≡ some a)
        × ((p.user.is_superuser ≡ true) ⊎ HoldsRole p a.team_id role)
  unfolding managed_agent get_visible_agent
  managed_agent_ok role {a} h =
      let passed : require_role p a.team_id role ≡ ok tt = ground arith in
      (ground arith, (require_role_verdict p a.team_id role).0.0 passed)

-- The option has the same value, where a missing one is None.
abbrev pub SameOption : Fields → Fields → String → Type 0
SameOption old new k = value_eq (or_null (get k old)) (or_null (get k new)) ≡ true

-- What an update of the agent gives: every governed option is as before, or the principal is a superuser or an owner
-- of the team.
abbrev pub Governs : UserPrincipal → Agent → Agent → Type 0
Governs p a a' =
    (a'.options ≡ a.options)
    ⊎ All (SameOption a.options a'.options) governed_option_keys
    ⊎ (p.user.is_superuser ≡ true)
    ⊎ HoldsRole p a.team_id Role.owner

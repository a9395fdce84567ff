-- ===== src/Evals/Start.antt =====
-- Who starts a run of a suite, and of what.
use sleeper_service.Base.{true, none, ◌≡◌, ◌⊎◌}
use sleeper_service.Base.Tests.{◌==◌}
use sleeper_service.Base.Lists.{any}
use sleeper_service.Models.Auth.{Role}
use sleeper_service.Models.Agents.{Agent, AgentVersion, agent_keyed, version_keyed}
use sleeper_service.Models.Evals.{EvalCase, EvalRun}
use sleeper_service.State.{Db, run_eval, enqueue}
use sleeper_service.Spending.{budget_exhausted}
use sleeper_service.Access.{UserPrincipal}
use sleeper_service.Access.Roles.{HoldsRole}
use sleeper_service.EvalGate.{new_run, add_run}

-- A run that is started: of a version of an agent that takes work, which has a case and a budget.
abbrev pub Started : Db → UserPrincipal → Agent → Db × EvalRun → Type 0
Started db p agent (db', run) =
    ((p.user.is_superuser ≡ true) ⊎ HoldsRole p agent.team_id Role.editor)
    × (agent.archived_at ≡ none)
    × (any (λ (c : EvalCase). c.agent_id == agent.id) db.eval_cases ≡ true)
    × (budget_exhausted db agent ≡ none)
    × ((v : AgentVersion) × (v.agent_id ≡ agent.id)
        × (run ≡ new_run db agent.id v.id none)
        × (db' ≡ enqueue (run_eval run.id) (add_run run db)))

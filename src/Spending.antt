-- ===== src/Spending.antt =====
-- runtime/spending.py: what an agent has spent in the calendar month, and whether its limit is reached.
pub mod Month
use sleeper_service.Base.{ℕ, Bool, Option, none, some, List, ◌&&◌}
use sleeper_service.Base.Tests.{leb, ◌==◌, if◌then◌else◌}
use sleeper_service.Base.Lists.{select, sum_by}
use sleeper_service.Models.Time.{DateTime, at_or_before}
use sleeper_service.Models.Agents.{Agent}
use sleeper_service.Models.Jobs.{Job}
use sleeper_service.State.{Db}

unfoldable pub month_start : DateTime → DateTime
month_start now = record now { day = 1; hour = 0; minute = 0; second = 0; microsecond = 0 }

abbrev pub spent_by : DateTime → ℕ → Job → Bool
spent_by start agent_id j = j.agent_id == agent_id && at_or_before start j.created_at

unfoldable pub month_spend : Db → ℕ → ℕ
unfolding month_start
month_spend db agent_id =
    sum_by (λ (j : Job). j.cost) (select (spent_by (month_start db.now) agent_id) db.jobs)

-- The month's spend where it has reached the limit.
unfoldable pub budget_exhausted : Db → Agent → Option ℕ
budget_exhausted db agent = elim agent.spending_limit [
  | none ↦ none
  | some limit ↦ let spend = month_spend db agent.id in if leb limit spend then some spend else none
]

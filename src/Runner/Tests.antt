-- ===== src/Runner/Tests.antt =====
-- One job in a small deployment: it answers, and it is refused when the limit is spent.
use sleeper_service.Base.{none, ℕ, ◌≡◌, ◌≤◌, refl, true, false, Bool, some, List, [], ◌∷◌, arith}
use sleeper_service.Base.Table.{find}
use sleeper_service.Models.Json.{text}
use sleeper_service.Models.Jobs.{Job, budget_exceeded, monthly_limit, job_keyed}
use sleeper_service.State.{Db}
use sleeper_service.Services.{Usage, Node, answered, Trace}
use sleeper_service.Spending.{month_spend, month_start}
use sleeper_service.Runner.{conclude, execute_job, returned}
use sleeper_service.Runner.Start.{Rows, rows_of}
use sleeper_service.Runner.Loop.{judge, timed_out, run_nodes}
use sleeper_service.Runner.Unpaid.{unanswered_costs_nothing}
use sleeper_service.Runner.Guards.{Stopped, run_nodes-Stopped}
use sleeper_service.Runner.Budget.{execute_job_refused}
use sleeper_service.Models.Time.{at_or_before}
use sleeper_service.Samples.{db, services, waiting, dear, helper, helper_v1, acme, support, model}

abbrev spent_db : Db
spent_db = record db { jobs = waiting ∷ dear ∷ [] }

abbrev rows : Rows
rows = record { agent = helper; version = helper_v1; tenant = acme; team = support; model = model }

finds_rows : rows_of spent_db waiting ≡ some rows
unfolding rows_of
finds_rows = refl

spent : 1000 ≤ month_spend spent_db 4
unfolding month_spend month_start at_or_before
spent = omega arith

execute_job_refused_example :
    ((run : Bool → ℕ → Db → Db × Trace)
      → execute_job (record services { run = run }) false 7 spent_db
        ≡ execute_job services false 7 spent_db)
    × ((execute_job services false 7 spent_db).1 ≡ returned)
    × ((j : Job) × (find 7 (execute_job services false 7 spent_db).0.jobs ≡ some j)
        × (j.status ≡ budget_exceeded)
        × (j.error ≡ some (monthly_limit (month_spend spent_db 4) 1000))
        × (j.cost ≡ 0))
execute_job_refused_example =
    execute_job_refused services false 7 spent_db waiting rows 1000 refl refl finds_rows refl spent

abbrev usage : Usage
usage = record { input_tokens = 10; output_tokens = 5 }

abbrev two_nodes : List Node
two_nodes = record { elapsed = 1; usage = usage } ∷ record { elapsed = 2; usage = usage } ∷ []

run_nodes-Stopped_example :
    Stopped
      (λ u m. some 15)
      "small"
      (some 12)
      60
      3
      (answered (text "Hi") usage)
      two_nodes
      (run_nodes (λ u m. some 15) "small" (some 12) 60 two_nodes 3 (answered (text "Hi") usage))
run_nodes-Stopped_example =
    run_nodes-Stopped (λ u m. some 15) "small" (some 12) 60 3 (answered (text "Hi") usage) two_nodes

-- A run that the clock stops, and for which the aggregator billed 500.
abbrev billed : Trace
billed = record {
  nodes = two_nodes;
  ended_at = 90;
  ending = answered (text "late") usage;
  tool_calls = [];
  escalation_ids = [];
  memory_proposals = [];
  decided_cost = none;
  has_messages = true;
  lookup_total = some 500;
  lookup_missing = 0;
}

unanswered_costs_nothing_example :
    (j : Job) × (find 7 (conclude services rows 7 billed (judge false 60 timed_out) db).0.jobs
      ≡ some j)
    × (j.cost ≡ 0)
unanswered_costs_nothing_example =
    unanswered_costs_nothing services rows 7 billed db waiting false 60 timed_out refl refl

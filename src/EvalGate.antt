-- ===== src/EvalGate.antt =====
-- `maybe_trigger_memory_eval` of runtime/evals.py: a pending memory version queues a run of the agent's eval suite
-- that is pinned to it.
use sleeper_service.Base.{ℕ, suc, Option, none, some, [], ◌∷◌, ◌++◌}
use sleeper_service.Base.Tests.{◌==◌, if◌then◌else◌}
use sleeper_service.Base.Lists.{count}
use sleeper_service.Base.Table.{find}
use sleeper_service.Models.Agents.{agent_keyed}
use sleeper_service.Models.Evals.{EvalCase, EvalRun, RunStatus}
use sleeper_service.State.{Db, run_eval, enqueue}

abbrev pub new_run : Db → ℕ → ℕ → Option ℕ → EvalRun
new_run db agent_id version_id memory_version_id = record {
  id = db.next_id;
  agent_id = agent_id;
  agent_version_id = version_id;
  memory_version_id = memory_version_id;
  status = RunStatus.running;
  results = [];
  pass_rate = none;
  created_at = db.now;
  finished_at = none;
}

abbrev pub add_run : EvalRun → Db → Db
add_run run db = record db { eval_runs = db.eval_runs ++ run ∷ []; next_id = suc db.next_id }

unfoldable pub maybe_trigger_memory_eval : ℕ → ℕ → Db → Db
maybe_trigger_memory_eval agent_id memory_version_id db = elim (find agent_id db.agents) [
  | none ↦ db
  | some agent ↦ elim agent.current_version_id [
    | none ↦ db
    | some version_id ↦
        if count (λ (c : EvalCase). c.agent_id == agent_id) db.eval_cases == 0
        then db
        else enqueue (run_eval db.next_id)
            (add_run (new_run db agent_id version_id (some memory_version_id)) db)
  ]
]

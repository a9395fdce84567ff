-- ===== src/Evals/Handlers.antt =====
-- api/v1/evals.py: the cases of a suite, and the start of a run.
use sleeper_service.Base.{ℕ, suc, String, Bool, Option, none, some, List, [], ◌∷◌, ◌++◌, ◌&&◌, not}
use sleeper_service.Base.Tests.{◌==◌, str_eq}
use sleeper_service.Base.Lists.{any}
use sleeper_service.Base.Table.{find, find_by, discard_by}
use sleeper_service.Base.Result.{
  Result, ok, ◌>>=◌, ◌>>◌, guard, or_raise, not_found, conflict, unprocessable,
}
use sleeper_service.Models.Json.{Value, Fields}
use sleeper_service.Models.Auth.{Role}
use sleeper_service.Models.Agents.{Agent, AgentVersion, agent_keyed, version_keyed}
use sleeper_service.Models.Evals.{EvalCase, EvalRun, case_keyed}
use sleeper_service.State.{Db, run_eval, enqueue}
use sleeper_service.Spending.{budget_exhausted}
use sleeper_service.Access.{UserPrincipal, is_some}
use sleeper_service.Agents.{managed_agent}
use sleeper_service.Versions.{numbered}
use sleeper_service.EvalGate.{new_run, add_run}
use sleeper_service.Evals.Checks.{Graders}
use sleeper_service.Evals.Validate.{validate_checks}

abbrev pub is_case : ℕ → String → EvalCase → Bool
is_case agent_id name c = c.agent_id == agent_id && str_eq c.name name

-- `EvalCaseCreate`
pub record EvalCaseCreate : Type 0 where
  pub name : String
  pub input : Value
  pub checks : List Fields

abbrev pub new_case : Db → ℕ → EvalCaseCreate → EvalCase
new_case db agent_id body = record {
  id = db.next_id;
  agent_id = agent_id;
  name = body.name;
  input = body.input;
  checks = body.checks;
}

unfoldable pub create_eval_case : Graders → Db → UserPrincipal → ℕ → EvalCaseCreate → Result Db
create_eval_case g db p agent_id body = do
  managed_agent db p agent_id Role.editor
  guard (not (is_some (validate_checks g body.checks))) unprocessable
  guard (not (is_some (find_by (is_case agent_id body.name) db.eval_cases))) conflict
  ok (record db {
    eval_cases = db.eval_cases ++ new_case db agent_id body ∷ [];
    next_id = suc db.next_id;
  })

unfoldable pub delete_eval_case : Db → UserPrincipal → ℕ → ℕ → Result Db
delete_eval_case db p agent_id case_id = do
  managed_agent db p agent_id Role.editor
  c ← or_raise (find case_id db.eval_cases) not_found
  guard (c.agent_id == agent_id) not_found
  ok (record db { eval_cases = discard_by (λ (x : EvalCase). x.id == case_id) db.eval_cases })

-- The version of the body: by its id, by its number, or the current one.
unfoldable pub version_to_run : Db → Agent → Option ℕ → Option ℕ → Result AgentVersion
version_to_run db agent (some version_id) version_no = do
  version ← or_raise (find version_id db.versions) unprocessable
  guard (version.agent_id == agent.id) unprocessable
  ok version
version_to_run db agent none (some version_no) =
    or_raise (find_by (numbered agent.id version_no) db.versions) unprocessable
version_to_run db agent none none = do
  version_id ← or_raise agent.current_version_id conflict
  or_raise (find version_id db.versions) not_found

-- `start_eval_run` from the checks that follow the editor's.
unfoldable pub queue_run : Db → ℕ → Option ℕ → Option ℕ → Agent → Result (Db × EvalRun)
unfolding version_to_run
queue_run db agent_id version_id version_no agent = do
  guard (not (is_some agent.archived_at)) conflict
  version ← version_to_run db agent version_id version_no
  guard (any (λ (c : EvalCase). c.agent_id == agent_id) db.eval_cases) conflict
  guard (not (is_some (budget_exhausted db agent))) conflict
  let run = new_run db agent_id version.id none
  ok (enqueue (run_eval run.id) (add_run run db), run)

unfoldable pub start_eval_run : Db → UserPrincipal → ℕ → Option ℕ → Option ℕ → Result (Db × EvalRun)
unfolding managed_agent queue_run
start_eval_run db p agent_id version_id version_no =
    managed_agent db p agent_id Role.editor >>= queue_run db agent_id version_id version_no

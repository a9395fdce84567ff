-- ===== src/Evals/Cases.antt =====
-- The cases of a suite in `run_eval` of runtime/evals.py: their order, their jobs, and what a job comes to. `before`
-- is the collation of the database, by which the cases are ordered.
use sleeper_service.Base.{
  ℕ, zero, suc, String, Bool, true, false, none, some, List, [], ◌∷◌, ◌++◌, map,
}
use sleeper_service.Base.Tests.{◌==◌, if◌then◌else◌}
use sleeper_service.Base.Lists.{all, select}
use sleeper_service.Base.Table.{find}
use sleeper_service.Models.Agents.{AgentVersion, agent_keyed, version_keyed}
use sleeper_service.Models.Jobs.{
  Job, queued, succeeded, budget_exceeded, failed, transient_provider, job_keyed,
}
use sleeper_service.Models.Evals.{EvalCase, EvalRun, CaseResult, run_keyed}
use sleeper_service.State.{Db}
use sleeper_service.Services.{Services}
use sleeper_service.Runner.{Attempt, returned, raised_transient, execute_job}
use sleeper_service.Runner.Finalize.{mark_job}
use sleeper_service.Evals.Checks.{Graders, grade_output}

-- `order_by(EvalCase.name)`
abbrev pub insert_case : (String → String → Bool) → EvalCase → List EvalCase → List EvalCase
insert_case before c [] = c ∷ []
insert_case before c (d ∷ ds) =
    let rest = insert_case before c ds in if before d.name c.name then d ∷ rest else c ∷ d ∷ ds

abbrev pub sort_cases : (String → String → Bool) → List EvalCase → List EvalCase
sort_cases before [] = []
sort_cases before (c ∷ cs) = insert_case before c (sort_cases before cs)

abbrev pub suite_of : (String → String → Bool) → Db → ℕ → List EvalCase
suite_of before db agent_id =
    sort_cases before (select (λ (c : EvalCase). c.agent_id == agent_id) db.eval_cases)

-- The job of a case.
abbrev pub eval_job : Db → EvalRun → EvalCase → Job
eval_job db run c = record {
  id = db.next_id;
  agent_id = run.agent_id;
  agent_version_id = run.agent_version_id;
  memory_version_id = run.memory_version_id;
  tenant_prompt_version_id = none;
  team_prompt_version_id = none;
  parent_job_id = none;
  status = queued;
  payload = c.input;
  output = none;
  error = none;
  tokens_in = 0;
  tokens_out = 0;
  cost = 0;
  callback_url = none;
  user_ctx = none;
  auth_ctx = none;
  idempotency_key = none;
  is_eval = true;
  created_at = db.now;
  started_at = none;
  finished_at = none;
}

abbrev pub add_eval_job : EvalRun → EvalCase → Db → Db
add_eval_job run c db = record db {
  jobs = db.jobs ++ eval_job db run c ∷ [];
  next_id = suc db.next_id;
}

abbrev pub eval_transient_attempts : ℕ
eval_transient_attempts = 2

-- How the tries of a job end: it ran, its provider failed at the last of them, or another exception went through.
pub data Tried : Type 0 where
  ran : Tried
  provider_failed : String → Tried
  interrupted : Tried

unfoldable pub after_try : ℕ → (ℕ → Db → Db × Tried) → Db × Attempt → Db × Tried
after_try left again (db, returned) = (db, ran)
after_try zero again (db, raised_transient message) = (db, provider_failed message)
after_try (suc left) again (db, raised_transient message) = again left db
after_try left again (db, _) = (db, interrupted)

-- The loop over the attempts, of which there is at least one.
unfoldable pub try_job : Services → ℕ → ℕ → Db → Db × Tried
unfolding after_try
try_job s job_id zero db = after_try zero (λ n d. (d, interrupted)) (execute_job s false job_id db)
try_job s job_id (suc left) db =
    after_try (suc left) (λ n d. try_job s job_id left d) (execute_job s false job_id db)

-- What a case comes to.
pub data CaseEnd : Type 0 where
  graded : CaseResult → CaseEnd
  out_of_budget : CaseEnd
  unmeasured : CaseEnd
  crashed : CaseEnd

abbrev pub case_result : EvalCase → Job → List Bool → CaseResult
case_result c job checks = record {
  case_id = c.id;
  case_name = c.name;
  job_id = job.id;
  job_status = job.status;
  passed = all (λ b. b) checks;
  checks = checks;
}

-- The checks of a job that did not succeed have all failed.
unfoldable pub judge_case : Graders → AgentVersion → EvalCase → Job → CaseEnd
judge_case g version c job = elim job.status [
  | budget_exceeded ↦ out_of_budget
  | succeeded ↦ elim (grade_output g version.output_schema c.checks job.output) [
    | none ↦ crashed
    | some checks ↦ graded (case_result c job checks)
  ]
  | _ ↦ graded (case_result c job (map (λ check. false) c.checks))
]

unfoldable pub after_job :
    Services → Graders → AgentVersion → EvalCase → ℕ → Db × Tried → Db × CaseEnd
unfolding judge_case
after_job s g version c job_id (db, interrupted) = (db, crashed)
after_job s g version c job_id (db, provider_failed message) =
    (mark_job s job_id failed (transient_provider message) db, unmeasured)
after_job s g version c job_id (db, ran) = elim (find job_id db.jobs) [
  | none ↦ (db, crashed)
  | some job ↦ (db, judge_case g version c job)
]

unfoldable pub run_case : Services → Graders → EvalRun → AgentVersion → EvalCase → Db → Db × CaseEnd
unfolding try_job after_job
run_case s g run version c db =
    after_job s g version c db.next_id (try_job s db.next_id 1 (add_eval_job run c db))

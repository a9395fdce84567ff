-- ===== src/Evals/Run.antt =====
-- `run_eval` of runtime/evals.py: the suite of an agent, case by case, and the score that it gives.
use mathlib.Core.List.{reverse}
use sleeper_service.Base.{
  ℕ, zero, suc, ◌+◌, ◌*◌, ◌/◌, String, Bool, true, false, Option, none, some, List, [], ◌∷◌, ◌++◌,
  ◌&&◌, not,
}
use sleeper_service.Base.Tests.{ltb, ◌==◌, if◌then◌else◌}
use sleeper_service.Base.Lists.{count, length}
use sleeper_service.Base.Table.{find, find_by, modify}
use sleeper_service.Models.Time.{DateTime}
use sleeper_service.Models.Agents.{Agent, AgentVersion, agent_keyed, version_keyed}
use sleeper_service.Models.Jobs.{job_keyed}
use sleeper_service.Models.Evals.{
  EvalCase, EvalRun, RunStatus, CaseResult, running, completed, errored, run_keyed,
}
use sleeper_service.State.{Db, AlertEvent}
use sleeper_service.Services.{Services}
use sleeper_service.Alerts.{notify}
use sleeper_service.Spending.{budget_exhausted}
use sleeper_service.Evals.Checks.{Graders}
use sleeper_service.Evals.Cases.{
  suite_of, CaseEnd, run_case, graded, out_of_budget, unmeasured, crashed,
}

-- How the loop over the cases ends, with the results so far.
pub data SuiteEnd : Type 0 where
  measured refused halted : List CaseResult → SuiteEnd
  suite_crashed : SuiteEnd

unfoldable pub after_case :
    (List CaseResult → Db → Db × SuiteEnd) → List CaseResult → Db × CaseEnd → Db × SuiteEnd
after_case again results (db, graded r) = again (results ++ r ∷ []) db
after_case again results (db, out_of_budget) = (db, refused results)
after_case again results (db, unmeasured) = (db, halted results)
after_case again results (db, crashed) = (db, suite_crashed)

unfoldable pub run_cases :
    Services
    → Graders
    → EvalRun
    → AgentVersion
    → List CaseResult
    → List EvalCase
    → Db
    → Db × SuiteEnd
unfolding run_case after_case
run_cases s g run version results [] db = (db, measured results)
run_cases s g run version results (c ∷ cs) db =
    after_case (λ rs d. run_cases s g run version rs cs d) results (run_case s g run version c db)

-- `if results: run.results = results`
abbrev pub unless_empty : List CaseResult → List CaseResult → List CaseResult
unless_empty [] old = old
unless_empty (r ∷ rs) old = r ∷ rs

abbrev pub stopped : RunStatus → List CaseResult → DateTime → EvalRun → EvalRun
stopped status results now run = record run {
  status = status;
  results = unless_empty results run.results;
  finished_at = some now;
}

-- How a call of `run_eval` ends.
pub data RunEnd : Type 0 where
  finished raised : RunEnd

-- `_refuse_run` and `_halt_on_provider_failure`, with their status and alert.
unfoldable pub stop_run :
    Services → ℕ → ℕ → RunStatus → AlertEvent → List CaseResult → Db → Db × RunEnd
stop_run s run_id agent_id status event results db = elim (find run_id db.eval_runs) [
  | none ↦ (db, raised)
  | some run ↦ (
    notify s.permitted agent_id event
        (record db { eval_runs = modify run_id (stopped status results db.now) db.eval_runs }),
    finished,
  )
]

abbrev pub passed_cases : List CaseResult → ℕ
passed_cases results = count (λ (r : CaseResult). r.passed) results

-- A quotient rounded half up to the scale of the column.
unfoldable pub to_scale : ℕ → ℕ → ℕ
to_scale passed zero = 0
to_scale passed (suc n) = (2 * (10000 * passed) + suc n) / (2 * suc n)

-- `pass_rate < baseline.pass_rate`, where the one is the quotient and the other was read from the column.
unfoldable pub is_regression : ℕ → ℕ → ℕ → Bool
is_regression passed zero stored = ltb 0 stored
is_regression passed (suc n) stored = ltb (10000 * passed) (stored * suc n)

abbrev pub is_completed : RunStatus → Bool
is_completed completed = true
is_completed _ = false

abbrev pub may_be_baseline : EvalRun → EvalRun → Bool
may_be_baseline run r =
    (r.agent_id == run.agent_id && r.agent_version_id == run.agent_version_id)
    && (is_completed r.status && not (r.id == run.id))

-- The most recent completed run of the same version: the rows stand in the order of their creation.
abbrev pub baseline_of : EvalRun → List EvalRun → Option EvalRun
baseline_of run rows = find_by (may_be_baseline run) (reverse rows)

abbrev pub regressed : List CaseResult → ℕ → Option EvalRun → Bool
regressed results total none = false
regressed results total (some baseline) = elim baseline.pass_rate [
  | none ↦ false
  | some stored ↦ is_regression (passed_cases results) total stored
]

abbrev pub scored : List CaseResult → ℕ → DateTime → EvalRun → EvalRun
scored results total now run = record run {
  results = results;
  pass_rate = some (to_scale (passed_cases results) total);
  status = completed;
  finished_at = some now;
}

unfoldable pub score_run : Services → EvalRun → ℕ → List CaseResult → Db → Db × RunEnd
unfolding to_scale is_regression
score_run s run total results db = elim (find run.id db.eval_runs) [
  | none ↦ (db, raised)
  | some row ↦
      let done : Db = record db {
        eval_runs = modify run.id (scored results total db.now) db.eval_runs;
      } in
      (
        if regressed results total (baseline_of run db.eval_runs)
            then notify s.permitted run.agent_id AlertEvent.eval_regression done
            else done,
        finished,
      )
]

unfoldable pub conclude_run : Services → EvalRun → ℕ → Db × SuiteEnd → Db × RunEnd
unfolding stop_run score_run
conclude_run s run total (db, measured results) = score_run s run total results db
conclude_run s run total (db, refused results) =
    stop_run s run.id run.agent_id RunStatus.budget_exceeded AlertEvent.budget results db
conclude_run s run total (db, halted results) =
    stop_run s run.id run.agent_id errored AlertEvent.eval_regression results db
conclude_run s run total (db, suite_crashed) = (db, raised)

abbrev pub is_running : RunStatus → Bool
is_running running = true
is_running _ = false

-- With the rows that the run refers to.
unfoldable pub run_suite :
    Services
    → Graders
    → (String → String → Bool)
    → EvalRun
    → AgentVersion
    → Agent
    → Db
    → Db × RunEnd
unfolding stop_run run_cases conclude_run
run_suite s g before run version agent db = elim (budget_exhausted db agent) [
  | some spend ↦ stop_run s run.id agent.id RunStatus.budget_exceeded AlertEvent.budget [] db
  | none ↦
      let cases = suite_of before db run.agent_id in
      conclude_run s run (length cases) (run_cases s g run version [] cases db)
]

unfoldable pub run_eval : Services → Graders → (String → String → Bool) → ℕ → Db → Db × RunEnd
unfolding run_suite
run_eval s g before run_id db = elim (find run_id db.eval_runs) [
  | none ↦ (db, finished)
  | some run ↦
      if is_running run.status
      then elim (find run.agent_version_id db.versions) [
        | none ↦ (db, raised)
        | some version ↦ elim (find run.agent_id db.agents) [
          | none ↦ (db, raised)
          | some agent ↦ run_suite s g before run version agent db
        ]
      ]
      else (db, finished)
]

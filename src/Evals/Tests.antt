-- ===== src/Evals/Tests.antt =====
-- A suite of one case, its check, and scores.
use sleeper_service.Base.{
  String, Bool, true, false, none, some, [], ◌∷◌, ◌≡◌, ◌<◌, ◌≤◌, ◌*◌, ◌%◌, ◌↔◌, refl, arith,
}
use sleeper_service.Base.Lists.{length}
use sleeper_service.Models.Json.{Value, text, number, pos, object, field, end}
use sleeper_service.Models.Evals.{EvalCase, EvalRun, RunStatus}
use sleeper_service.State
use sleeper_service.State.{Db}
use sleeper_service.Evals.Checks.{Graders, grade_output}
use sleeper_service.Evals.Validate.{validate_checks}
use sleeper_service.Evals.Grading.{odd_check, odd_check-raised}
use sleeper_service.Evals.Cases.{suite_of}
use sleeper_service.Evals.Run.{is_regression, to_scale, run_eval}
use sleeper_service.Evals.Score.{drop-is_regression, same_score-is_regression}
use sleeper_service.Evals.Outcomes.{Ended, run_eval-Ended}
use sleeper_service.Models.Agents.{agent_keyed}
use sleeper_service.State.{enqueue}
use sleeper_service.EvalGate.{new_run, add_run}
use sleeper_service.Samples.{db, services, noon}

abbrev graders : Graders
graders = record {
  enabled = "monty" ∷ [];
  run = λ b c v. none;
  defines = λ b c. true;
  conforms = λ v s. true;
  compiles = λ v. true;
  found = λ p v. true;
}

abbrev low : Value
low = object (field "risk" (text "low") end)

odd_check-raised_example :
    (validate_checks graders (odd_check (number (pos 5)) (text "low") ∷ []) ≡ none)
    × (grade_output graders none (odd_check (number (pos 5)) (text "low") ∷ []) (some low) ≡ none)
odd_check-raised_example = odd_check-raised graders none (number (pos 5)) (text "low") low refl refl

drop-is_regression_example :
    (1 < 2 → is_regression 1 3 (to_scale 2 3) ≡ true)
    × (2 < 1 → is_regression 1 3 (to_scale 2 3) ≡ false)
drop-is_regression_example = drop-is_regression 1 3 2 (omega arith) (omega arith)

same_score-is_regression_example :
    (is_regression 2 3 (to_scale 2 3) ≡ true) ↔ (3 ≤ 2 * (10000 * 2 % 3))
same_score-is_regression_example = same_score-is_regression 2 3 (omega arith)

abbrev greeting : EvalCase
greeting = record {
  id = 30;
  agent_id = 4;
  name = "greeting";
  input = object (field "prompt" (text "Hello") end);
  checks = odd_check (text "text") (text "Hi") ∷ [];
}

abbrev suite_run : EvalRun
suite_run = record {
  id = 31;
  agent_id = 4;
  agent_version_id = 5;
  memory_version_id = none;
  status = RunStatus.running;
  results = [];
  pass_rate = none;
  created_at = noon;
  finished_at = none;
}

abbrev suite_db : Db
suite_db = record db { eval_cases = greeting ∷ []; eval_runs = suite_run ∷ [] }

abbrev before : String → String → Bool
before s t = true

run_eval-Ended_example :
    Ended suite_run
      (length (suite_of before suite_db 4))
      (run_eval services graders before 31 suite_db)
run_eval-Ended_example =
    run_eval-Ended services (λ prompted job_id d i r h. h) graders before suite_db suite_run refl
      refl

abbrev started_run : EvalRun
started_run = new_run suite_db 4 5 none

abbrev started_db : Db
started_db = enqueue (sleeper_service.State.run_eval started_run.id) (add_run started_run suite_db)

-- ===== src/Evals/Outcomes.antt =====
-- How a run of a suite ends.
use sleeper_service.Base.{
  true, ℕ, zero, suc, ◌+◌, ◌≡◌, ◌⊎◌, refl, ap, ◌∙◌, inl, inr, arith, String, Bool, false, some,
  List, [], ◌∷◌, ◌++◌,
}
use sleeper_service.Base.Tests.{Bool-cases, Option-cases}
use sleeper_service.Base.Lists.{length, length-append}
use sleeper_service.Base.Table.{find, find-modify_self}
use sleeper_service.Models.Agents.{Agent, AgentVersion, agent_keyed, version_keyed}
use sleeper_service.Models.Jobs.{failed, transient_provider, job_keyed}
use sleeper_service.Models.Evals.{
  EvalCase, EvalRun, RunStatus, CaseResult, running, completed, errored, run_keyed,
}
use sleeper_service.State.{Db, AlertEvent}
use sleeper_service.Services.{Services}
use sleeper_service.Alerts.Frame.{runs-notify}
use sleeper_service.Spending.{budget_exhausted}
use sleeper_service.Memory.Frame.{HasRun}
use sleeper_service.Runner.{
  Attempt, returned, raised_transient, falls_back, raised_cancelled, no_row, execute_job,
}
use sleeper_service.Runner.Runs.{KeepsRuns, HasRun-execute_job, runs-mark_job}
use sleeper_service.Evals.Checks.{Graders}
use sleeper_service.Evals.Cases.{
  suite_of, add_eval_job, Tried, ran, provider_failed, interrupted, after_try, try_job, CaseEnd,
  graded, out_of_budget, unmeasured, crashed, after_job, run_case,
}
use sleeper_service.Evals.Run.{
  SuiteEnd, measured, refused, halted, suite_crashed, after_case, run_cases, stopped, RunEnd,
  finished, raised, stop_run, passed_cases, to_scale, baseline_of, regressed, scored, score_run,
  conclude_run, run_suite, is_running, run_eval,
}

-- One result for each case, after those that were there.
abbrev Measures : ℕ → SuiteEnd → Type 0
Measures total (measured results) = length results ≡ total
Measures total _ = Unit

module _ (s : Services) (keeps : KeepsRuns s) (i : ℕ) (run : EvalRun) where
  HasRun-after_try :
      (left : ℕ) (again : ℕ → Db → Db × Tried)
      → ((n : ℕ) (d : Db) → HasRun i run d → HasRun i run (again n d).0)
      → (db : Db) (a : Attempt) → HasRun i run db
      → HasRun i run (after_try left again (db, a)).0
  unfolding after_try
  HasRun-after_try left again k db returned h = h
  HasRun-after_try zero again k db (raised_transient m) h = h
  HasRun-after_try (suc left) again k db (raised_transient m) h = k left db h
  HasRun-after_try zero again k db falls_back h = h
  HasRun-after_try (suc left) again k db falls_back h = h
  HasRun-after_try zero again k db raised_cancelled h = h
  HasRun-after_try (suc left) again k db raised_cancelled h = h
  HasRun-after_try zero again k db no_row h = h
  HasRun-after_try (suc left) again k db no_row h = h

  HasRun-try_job :
      (job_id left : ℕ) (db : Db) → HasRun i run db → HasRun i run (try_job s job_id left db).0
  unfolding try_job
  HasRun-try_job job_id zero db h =
      let (after, a) = execute_job s false job_id db in
      HasRun-after_try zero (λ n d. (d, interrupted)) (λ n d k. k) after a
        (HasRun-execute_job s keeps i run false job_id db h)
  HasRun-try_job job_id (suc left) db h =
      let (after, a) = execute_job s false job_id db in
      HasRun-after_try (suc left) (λ n d. try_job s job_id left d)
        (λ n d k. HasRun-try_job job_id left d k) after a
        (HasRun-execute_job s keeps i run false job_id db h)

  module _ (g : Graders) (r : EvalRun) (v : AgentVersion) where
    HasRun-after_job :
        (c : EvalCase) (job_id : ℕ) (db : Db) (t : Tried)
        → HasRun i run db
        → HasRun i run (after_job s g v c job_id (db, t)).0
    unfolding after_job
    HasRun-after_job c job_id db interrupted h = h
    HasRun-after_job c job_id db (provider_failed m) h =
        ap (find i) (runs-mark_job s job_id failed (transient_provider m) db) ∙ h
    HasRun-after_job c job_id db ran h = elim (Option-cases (find job_id db.jobs)) [
      | inl e ↦ rw (after_job, e) h
      | inr (job, e) ↦ rw (after_job, e) h
    ]

    HasRun-run_case :
        (c : EvalCase) (db : Db) → HasRun i run db → HasRun i run (run_case s g r v c db).0
    unfolding run_case
    HasRun-run_case c db h =
        HasRun-after_job c db.next_id (try_job s db.next_id 1 (add_eval_job r c db)).0
          (try_job s db.next_id 1 (add_eval_job r c db)).1
          (HasRun-try_job db.next_id 1 (add_eval_job r c db) h)

    abbrev Kept : ℕ → Db × SuiteEnd → Type 0
    Kept total (db, e) = HasRun i run db × Measures total e

    after_case-Kept :
        (total : ℕ) (again : List CaseResult → Db → Db × SuiteEnd) (acc : List CaseResult)
        → ((x : CaseResult) (d : Db) → HasRun i run d → Kept total (again (acc ++ x ∷ []) d))
        → (db : Db) (e : CaseEnd) → HasRun i run db
        → Kept total (after_case again acc (db, e))
    unfolding after_case
    after_case-Kept total again acc k db (graded x) h = k x db h
    after_case-Kept total again acc k db out_of_budget h = (h, tt)
    after_case-Kept total again acc k db unmeasured h = (h, tt)
    after_case-Kept total again acc k db crashed h = (h, tt)

    run_cases-Kept :
        (cs : List EvalCase) (acc : List CaseResult) (total : ℕ) (db : Db)
        → length acc + length cs ≡ total
        → HasRun i run db
        → Kept total (run_cases s g r v acc cs db)
    unfolding run_cases
    run_cases-Kept [] acc total db e h = (h, omega (arith, e))
    run_cases-Kept (c ∷ cs) acc total db e h =
        after_case-Kept total (λ rs d. run_cases s g r v rs cs d) acc
          (λ x d k.
            run_cases-Kept cs (acc ++ x ∷ []) total d (omega (arith, e, length-append acc (x ∷ [])))
              k)
          (run_case s g r v c db).0 (run_case s g r v c db).1 (HasRun-run_case c db h)

-- What a run is after the call: scored, with a result for each case and the share of those that passed; or stopped
-- before that, with the pass rate that it had.
abbrev pub IsScored : EvalRun → ℕ → EvalRun → Type 0
IsScored run total r =
    (r.status ≡ completed)
    × (length r.results ≡ total)
    × (r.pass_rate ≡ some (to_scale (passed_cases r.results) total))

abbrev pub IsStopped : EvalRun → EvalRun → Type 0
IsStopped run r =
    ((r.status ≡ RunStatus.budget_exceeded) ⊎ (r.status ≡ errored)) × (r.pass_rate ≡ run.pass_rate)

abbrev pub Ended : EvalRun → ℕ → Db × RunEnd → Type 0
Ended run total (db, finished) =
    (r : EvalRun) × HasRun run.id r db × (IsScored run total r ⊎ IsStopped run r)
Ended run total (db, raised) = HasRun run.id run db

module _ (s : Services) (run : EvalRun) (total : ℕ) where
  stop_run-Ended :
      (agent_id : ℕ) (status : RunStatus) (event : AlertEvent) (rs : List CaseResult) (db : Db)
      → (status ≡ RunStatus.budget_exceeded) ⊎ (status ≡ errored)
      → HasRun run.id run db
      → Ended run total (stop_run s run.id agent_id status event rs db)
  unfolding stop_run
  stop_run-Ended agent_id status event rs db e h =
      rw (stop_run, h)
        (
          stopped status rs db.now run,
          ap (find run.id) (runs-notify s.permitted agent_id event _)
              ∙ find-modify_self run.id (stopped status rs db.now) (λ x. refl) db.eval_runs h,
          inr (e, refl),
        )

  score_run-Ended :
      (rs : List CaseResult) (db : Db)
      → length rs ≡ total
      → HasRun run.id run db
      → Ended run total (score_run s run total rs db)
  unfolding score_run
  score_run-Ended rs db e h =
      let row = find-modify_self run.id (scored rs total db.now) (λ x. refl) db.eval_runs h in
      elim (Bool-cases (regressed rs total (baseline_of run db.eval_runs))) [
        | inl b ↦
            rw (score_run, h, b)
              (
                scored rs total db.now run,
                ap (find run.id) (runs-notify s.permitted run.agent_id AlertEvent.eval_regression _)
                    ∙ row,
                inl (refl, e, refl),
              )
        | inr b ↦ rw (score_run, h, b) (scored rs total db.now run, row, inl (refl, e, refl))
      ]

  conclude_run-Ended :
      (db : Db) (e : SuiteEnd)
      → HasRun run.id run db
      → Measures total e
      → Ended run total (conclude_run s run total (db, e))
  unfolding conclude_run
  conclude_run-Ended db (measured rs) h m = score_run-Ended rs db m h
  conclude_run-Ended db (refused rs) h m =
      stop_run-Ended run.agent_id RunStatus.budget_exceeded AlertEvent.budget rs db (inl refl) h
  conclude_run-Ended db (halted rs) h m =
      stop_run-Ended run.agent_id errored AlertEvent.eval_regression rs db (inr refl) h
  conclude_run-Ended db suite_crashed h m = h

module _ (s : Services) (keeps : KeepsRuns s) (g : Graders) (before : String → String → Bool) where
  run_suite-Ended :
      (run : EvalRun) (v : AgentVersion) (agent : Agent) (db : Db)
      → HasRun run.id run db
      → Ended run (length (suite_of before db run.agent_id)) (run_suite s g before run v agent db)
  unfolding run_suite
  run_suite-Ended run v agent db h = elim (Option-cases (budget_exhausted db agent)) [
    | inr (spend, e) ↦
        rw (run_suite, e)
          (stop_run-Ended s run _ agent.id RunStatus.budget_exceeded AlertEvent.budget [] db
            (inl refl) h)
    | inl e ↦
        let cases = suite_of before db run.agent_id in
        let (kept, m) =
          run_cases-Kept s keeps run.id run g run v cases [] (length cases) db (omega arith) h in
        let (after, outcome) = run_cases s g run v [] cases db in
        rw (run_suite, e) (conclude_run-Ended s run (length cases) after outcome kept m)
  ]

  started-Ended :
      (db : Db) (run : EvalRun)
      → find run.id db.eval_runs ≡ some run
      → is_running run.status ≡ true
      → Ended run (length (suite_of before db run.agent_id)) (run_eval s g before run.id db)
  unfolding run_eval
  started-Ended db run h st = elim (Option-cases (find run.agent_version_id db.versions)) [
    | inl e ↦ rw (run_eval, h, st, e) h
    | inr (v, e) ↦ elim (Option-cases (find run.agent_id db.agents)) [
      | inl n ↦ rw (run_eval, h, st, e, n) h
      | inr (agent, n) ↦ rw (run_eval, h, st, e, n) (run_suite-Ended run v agent db h)
    ]
  ]

  -- A run that is running ends in one of these ways, where the tools of a model change no run. It is completed, with a
  -- result for each case of the suite and the share of the results that passed. Or it is stopped as out of budget or as
  -- errored, and then it has no other pass rate than before. Or an exception goes through, and its row is as it was.
  pub run_eval-Ended :
      (db : Db) (run : EvalRun)
      → find run.id db.eval_runs ≡ some run
      → run.status ≡ running
      → Ended run (length (suite_of before db run.agent_id)) (run_eval s g before run.id db)
  run_eval-Ended db run h st = started-Ended db run h (ap is_running st)

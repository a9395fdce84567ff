-- ===== src/Runner/Unpaid.antt =====
-- The cost that the runner records for a run that does not answer.
use mathlib.Core.Path.{subst}
use sleeper_service.Base.{
  ℕ, ◌≡◌, refl, ap, ◌∙◌, sym, arith, inl, inr, Bool, true, false, none, some, ◌&&◌,
}
use sleeper_service.Base.Tests.{Bool-cases, Option-cases, ◌==◌}
use sleeper_service.Base.Table.{find, find-modify_self}
use sleeper_service.Models.Jobs.{Job, JobStatus, failed, cancelled_parent, job_keyed}
use sleeper_service.State.{Db}
use sleeper_service.Services.{
  Services, Trace, Ending, answered, model_http_error, unexpected_behavior, transport_error, raised,
}
use sleeper_service.Runner.Finalize.{
  Finish, finish_row, charge, finalize, with_error, handle_cancellation, requeue,
}
use sleeper_service.Runner.Row.{find-finalize}
use sleeper_service.Runner.Loop.{
  Stop, timed_out, crossed, ended, judge, Verdict, finish, transient, fallback, interrupted,
  is_transient_status,
}
use sleeper_service.Runner.Start.{Rows}
use sleeper_service.Runner.Post.{Outcome, settle, finish_of, propose, post_hooks}
use sleeper_service.Runner.Final.{jobs-propose, jobs-alert_budget}
use sleeper_service.Runner.Outcomes.{Row}
use sleeper_service.Runner.{conclude}

-- The run answered, or its cost stopped it.
abbrev pub answers : Stop → Bool
answers (crossed cost left usage) = true
answers (ended (answered raw usage)) = true
answers _ = false

abbrev IsUnpaid : Verdict → Type 0
IsUnpaid (finish status output error usage) = usage ≡ none
IsUnpaid _ = Unit

judge-IsUnpaid :
    (m : Bool) (timeout_s : ℕ) (stop : Stop)
    → answers stop ≡ false
    → IsUnpaid (judge m timeout_s stop)
unfolding judge
judge-IsUnpaid m t timed_out h = refl
judge-IsUnpaid m t (crossed cost left usage) h = absurd (cc)
judge-IsUnpaid m t (ended (answered raw usage)) h = absurd (cc)
judge-IsUnpaid m t (ended Ending.usage_limit_exceeded) h = refl
judge-IsUnpaid m t (ended (model_http_error code forced message)) h =
    elim (Bool-cases (is_transient_status code)) [
      | inl e ↦ rw e tt
      | inr e ↦ elim (Bool-cases ((code == 400 && forced) && m)) [
        | inl b ↦ rw (e, b) tt
        | inr b ↦ rw (e, b) refl
      ]
    ]
judge-IsUnpaid m t (ended (unexpected_behavior true message)) h = tt
judge-IsUnpaid m t (ended (unexpected_behavior false message)) h = refl
judge-IsUnpaid m t (ended (transport_error message)) h = tt
judge-IsUnpaid m t (ended Ending.cancelled) h = tt
judge-IsUnpaid m t (ended (raised message)) h = refl

cost-finish_row :
    (s : Services) (db : Db) (status : JobStatus) (f : Finish) (j : Job)
    → f.usage ≡ none
    → (finish_row s db status f j).cost ≡ j.cost
unfolding charge
cost-finish_row s db status f j h = ground arith

module _ (s : Services) (r : Rows) (job_id : ℕ) (t : Trace) (db : Db) (job : Job) where
  CostsAsBefore : Db → Type 0
  CostsAsBefore d = Row job_id (λ j. j.cost ≡ job.cost) d.jobs

  settle-cost :
      (result : Outcome)
      → find job_id db.jobs ≡ some job
      → CostsAsBefore (settle s r job_id t none result db)
  unfolding settle CostsAsBefore
  settle-cost result here =
      let proposed = propose s r.agent job_id t.memory_proposals result db in
      let f = finish_of r t none result in
      let there =
        ap (find job_id) (jobs-propose s r.agent job_id t.memory_proposals result db) ∙ here in
      subst (Row job_id (λ j. j.cost ≡ job.cost))
        (sym
          (jobs-alert_budget s r.agent result.status (finalize s job_id result.status f proposed)))
        (
          finish_row s proposed result.status f job,
          find-finalize s job_id result.status f proposed there,
          cost-finish_row s proposed result.status f job refl,
        )

  cancel-cost : find job_id db.jobs ≡ some job → CostsAsBefore (handle_cancellation s job_id db)
  unfolding handle_cancellation CostsAsBefore
  cancel-cost here = elim (Option-cases job.parent_job_id) [
    | inl n ↦
        rw (handle_cancellation, here, n)
          (requeue job, find-modify_self job_id requeue (λ j. refl) db.jobs here, refl)
    | inr (p, n) ↦
        let f = with_error cancelled_parent in
        rw (handle_cancellation, here, n)
          (
            finish_row s db failed f job,
            find-finalize s job_id failed f db here,
            cost-finish_row s db failed f job refl,
          )
  ]

  conclude-cost :
      (v : Verdict)
      → IsUnpaid v
      → find job_id db.jobs ≡ some job
      → CostsAsBefore (conclude s r job_id t v db).0
  unfolding conclude CostsAsBefore
  conclude-cost (finish status output error usage) h here =
      subst (λ u. CostsAsBefore (settle s r job_id t u (post_hooks s r t status output error) db))
        (sym h) (settle-cost (post_hooks s r t status output error) here)
  conclude-cost (transient message) h here = (job, here, refl)
  conclude-cost fallback h here = (job, here, refl)
  conclude-cost interrupted h here = cancel-cost here

  -- A run that does not answer and is not stopped by the budget leaves the job with the cost that it had, whatever the
  -- run used and whatever the aggregator's look-up says was billed for it.
  pub unanswered_costs_nothing :
      (m : Bool) (timeout_s : ℕ) (stop : Stop)
      → answers stop ≡ false
      → find job_id db.jobs ≡ some job
      → (j : Job) × (find job_id (conclude s r job_id t (judge m timeout_s stop) db).0.jobs
          ≡ some j)
        × (j.cost ≡ job.cost)
  unfolding CostsAsBefore
  unanswered_costs_nothing m timeout_s stop h here =
      conclude-cost (judge m timeout_s stop) (judge-IsUnpaid m timeout_s stop h) here

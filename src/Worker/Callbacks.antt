-- ===== src/Worker/Callbacks.antt =====
-- When a callback counts as delivered, and when it is tried again.
use sleeper_service.Base.{ℕ, ◌≡◌, ◌≢◌, ◌<◌, arith, inl, inr, String, Bool, true, some}
use sleeper_service.Base.Tests.{Bool-cases, Option-cases}
use sleeper_service.Base.Table.{find}
use sleeper_service.Models.Auth.{Tenant}
use sleeper_service.Models.Jobs.{Job, job_keyed}
use sleeper_service.State.{Db}
use sleeper_service.Services.{Services}
use sleeper_service.Worker.{
  Posted, answered, network_error, Delivery, nothing_to_send, delivered, undelivered, rejected,
  deliver, send, judge_answer, tenant_of_job, call_back, after_delivery,
}
use sleeper_service.Worker.Tries.{asks_retry}

module _ (allows : Tenant → String → Bool) (post : String → Job → Posted) (db : Db)
    (job_id : ℕ) where
  -- The job has a callback, the policy allows its destination, and the receiver answered with this status.
  abbrev pub Received : ℕ → Type 0
  Received status =
      (job : Job) × (url : String) × (tenant : Tenant) × (find job_id db.jobs ≡ some job)
      × (job.callback_url ≡ some url)
      × (tenant_of_job db job ≡ some tenant)
      × (allows tenant url ≡ true)
      × (post url job ≡ answered status)
      × (status < 300)

  judged :
      (p : Posted) {status : ℕ}
      → judge_answer p ≡ delivered status
      → (p ≡ answered status) × (status < 300)
  unfolding judge_answer
  judged (answered k) h = ground arith
  judged (network_error m) h = absurd (cc)

  deliver-Received :
      {status : ℕ} → deliver allows post db job_id ≡ delivered status → Received status
  unfolding deliver send
  deliver-Received {status} h = elim (Option-cases (find job_id db.jobs)) [
    | inl n ↦ absurd (ground arith)
    | inr (job, j) ↦ elim (Option-cases job.callback_url) [
      | inl n ↦ absurd (ground arith)
      | inr (url, u) ↦ elim (Option-cases (tenant_of_job db job)) [
        | inl n ↦ absurd (ground arith)
        | inr (tenant, t) ↦ elim (Bool-cases (allows tenant url)) [
          | inr no_leave ↦ absurd (ground arith)
          | inl may ↦
              let answer : judge_answer (post url job) ≡ delivered status = ground arith in
              let (p, lt) = judged (post url job) {status = status} answer in
              (job, url, tenant, j, u, t, may, p, lt)
        ]
      ]
    ]
  ]

  module _ (s : Services) (job_try : ℕ) where
    retried_only :
        (v : Delivery)
        → asks_retry (after_delivery s job_try job_id v db).1 ≡ true
        → ((after_delivery s job_try job_id v db).0 ≡ db)
          × (job_try < s.settings.callback_max_tries)
          × (v ≢ rejected)
    unfolding after_delivery
    retried_only nothing_to_send h = absurd (cc)
    retried_only (delivered status) h = absurd (cc)
    retried_only rejected h = absurd (cc)
    retried_only (undelivered m) h = (ground arith, ground arith, λ e. absurd (cc))

    -- A callback counts as delivered only if the job has one, the policy allows its destination and the receiver
    -- answered with a status below 300. It is tried again only while tries are left, with nothing changed, and never
    -- after the policy refused its destination.
    pub call_back_verdict :
        ((status : ℕ) → deliver allows post db job_id ≡ delivered status → Received status)
        × (asks_retry (call_back s allows post job_try job_id db).1 ≡ true
            → ((call_back s allows post job_try job_id db).0 ≡ db)
              × (job_try < s.settings.callback_max_tries)
              × (deliver allows post db job_id ≢ rejected))
    unfolding call_back
    call_back_verdict = (
      λ status h. deliver-Received {status = status} h,
      retried_only (deliver allows post db job_id),
    )

-- ===== src/Jobs/Tests.antt =====
-- Two submissions with one key, a submission that refers to a file, and a retry, in a small deployment.
use sleeper_service.Base.{ℕ, ◌≡◌, refl, true, false, none, some, [], ◌∷◌}
use sleeper_service.Base.Result.{Result, ok, err}
use sleeper_service.Models.Json.{text}
use sleeper_service.Models.Agents.{Agent, agent_keyed}
use sleeper_service.Models.Jobs.{Job, JobStatus, File, retried, job_keyed}
use sleeper_service.State.{Db, run_job}
use sleeper_service.Spending.{budget_exhausted, month_spend, month_start}
use sleeper_service.Models.Time.{at_or_before}
use sleeper_service.Access.{user, has_role, get_agent_for}
use sleeper_service.Jobs.{Order, create_job, pre_flight}
use sleeper_service.Jobs.Handlers.{
  Submission, Policy, submit_job, resolve_version, allow_files, check_files, reset,
}
use sleeper_service.Jobs.Submit.{MayRefer, submit_job-MayRefer}
use sleeper_service.Samples.{db, services, waiting, ada_principal, noon}

abbrev order : Order
order = record {
  context = text "Hello";
  callback_url = none;
  user_ctx = none;
  auth_ctx = none;
  idempotency_key = some "k1";
}

abbrev report : File
report = record {
  id = 30;
  tenant_id = 1;
  object_key = "t1/report.txt";
  size = 12;
  content_type = "text/plain";
  expires_at = none;
}

abbrev filed_db : Db
filed_db = record db { files = report ∷ [] }

abbrev submission : Submission
submission = record {
  prompt = "Read";
  agent_version_id = none;
  version_no = none;
  alias = none;
  links = [];
  files = 30 ∷ [];
  callback_url = none;
  user_ctx = none;
  idempotency_key = none;
}

abbrev strict : Policy
strict = record { refuses_links = λ t ls. true; refuses_callback = λ t u. true }

-- The result of a handler, or a value in its place.
abbrev or_else : Result (Db × ℕ) → Db × ℕ → Db × ℕ
or_else (ok r) d = r
or_else (err e) d = d

abbrev submitted_to : Db × ℕ
submitted_to =
    or_else (submit_job services (λ d. d) strict filed_db (user ada_principal) 4 submission false)
      (filed_db, 0)

submits :
    submit_job services (λ d. d) strict filed_db (user ada_principal) 4 submission false
    ≡ ok submitted_to
unfolding submit_job get_agent_for has_role resolve_version allow_files check_files create_job
    pre_flight budget_exhausted month_spend month_start at_or_before
submits = refl

submit_job-MayRefer_example :
    (agent : Agent) × (get_agent_for db.agents (user ada_principal) 4 true ≡ ok agent)
    × (agent.archived_at ≡ none)
    × MayRefer filed_db (user ada_principal) agent (30 ∷ [])
submit_job-MayRefer_example =
    submit_job-MayRefer services (λ d. d) strict filed_db (user ada_principal) 4 submission false
      {r = submitted_to} submits

abbrev broken : Job
broken = record waiting { status = JobStatus.failed; finished_at = some noon }

abbrev broken_db : Db
broken_db = record db { jobs = broken ∷ [] }

abbrev retried_db : Db
retried_db = record broken_db {
  jobs = reset broken ∷ [];
  events = (record { job_id = 7; type = retried }) ∷ [];
  queue = run_job 7 ∷ [];
}

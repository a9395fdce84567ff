-- ===== src/Worker.antt =====
-- worker.py: one delivery of a task to the worker. arq counts the tries of a task and delivers it again after `Retry`.
pub mod Tries
pub mod Capacity
pub mod Callbacks
mod Tests
use sleeper_service.Base.{
  ℕ, zero, suc, ◌*◌, ◌-◌, ◌^◌, String, Bool, true, false, Option, none, some, List, [], ◌∷◌, ◌++◌,
  ◌&&◌, not,
}
use sleeper_service.Base.Tests.{leb, ◌==◌, str_eq, if◌then◌else◌}
use sleeper_service.Base.Lists.{count}
use sleeper_service.Base.Table.{find}
use sleeper_service.Models.Json.{Value, number, boolean, get, pos}
use sleeper_service.Models.Auth.{Tenant, tenant_keyed}
use sleeper_service.Models.Agents.{Agent, agent_keyed}
use sleeper_service.Models.Jobs.{
  Job, JobStatus, running, dead_letter, retries_exhausted, callback_delivered, callback_failed,
  job_keyed,
}
use sleeper_service.State.{Db, AlertEvent, run_job, add_event, enqueue}
use sleeper_service.Services.{Services}
use sleeper_service.Alerts.{notify}
use sleeper_service.Runner.Finalize.{mark_job}
use sleeper_service.Runner.{
  Attempt, returned, raised_transient, falls_back, raised_cancelled, no_row, execute_job,
}
use sleeper_service.Jobs.Handlers.{queue_callback}

-- How a task's function ends: it returns, raises `Retry` with the seconds to wait, or lets another exception through.
pub data Ended : Type 0 where
  finished : Ended
  retry_after : ℕ → Ended
  interrupted : Ended
  crashed : Ended

-- `isinstance(cap, int)` and a positive `cap`; `True` is an `int`.
abbrev pub cap_of : Option Value → Option ℕ
cap_of (some (number (pos (suc n)))) = some (suc n)
cap_of (some (boolean true)) = some 1
cap_of _ = none

abbrev pub is_running : JobStatus → Bool
is_running running = true
is_running _ = false

abbrev pub is_of_tenant : Db → ℕ → Job → Bool
is_of_tenant db tenant_id j = elim (find j.agent_id db.agents) [
  | none ↦ false
  | some a ↦ a.tenant_id == tenant_id
]

abbrev pub takes_slot : Db → ℕ → Job → Bool
takes_slot db tenant_id j = is_of_tenant db tenant_id j && (is_running j.status && not j.is_eval)

pub reaches_cap : Db → Tenant → Bool
reaches_cap db tenant = elim (cap_of (get "max_concurrent_jobs" tenant.settings)) [
  | none ↦ false
  | some cap ↦ leb cap (count (takes_slot db tenant.id) db.jobs)
]

unfoldable pub tenant_at_capacity : Db → ℕ → Bool
unfolding reaches_cap
tenant_at_capacity db job_id = elim (find job_id db.jobs) [
  | none ↦ false
  | some job ↦ if job.is_eval then false else elim (find job.agent_id db.agents) [
    | none ↦ false
    | some agent ↦ elim (find agent.tenant_id db.tenants) [
      | none ↦ false
      | some tenant ↦ reaches_cap db tenant
    ]
  ]
]

-- The alert on a job that has used up its tries.
pub alert_dead_letter : Services → ℕ → Db → Db
alert_dead_letter s job_id db = elim (find job_id db.jobs) [
  | none ↦ db
  | some job ↦ notify s.permitted job.agent_id AlertEvent.dead_letter db
]

pub after_execute : Services → ℕ → ℕ → Db × Attempt → Db × Ended
unfolding alert_dead_letter
after_execute s job_try job_id (db, returned) = (queue_callback job_id db, finished)
after_execute s job_try job_id (db, raised_transient message) =
    if leb s.settings.job_max_tries job_try
    then (
      alert_dead_letter s job_id
          (mark_job s job_id dead_letter (retries_exhausted job_try message) db),
      finished,
    )
    else (db, retry_after (10 * 2 ^ (job_try - 1)))
after_execute s job_try job_id (db, falls_back) = (db, crashed)
after_execute s job_try job_id (db, raised_cancelled) = (db, interrupted)
after_execute s job_try job_id (db, no_row) = (db, crashed)

-- The task `run_job`. A job over the tenant's capacity is enqueued again, as a new task, and returns.
unfoldable pub work : Services → ℕ → ℕ → Db → Db × Ended
unfolding after_execute
work s job_try job_id db =
    if tenant_at_capacity db job_id
    then (enqueue (run_job job_id) db, finished)
    else after_execute s job_try job_id (execute_job s false job_id db)

-- What the receiver of a callback answers.
pub data Posted : Type 0 where
  answered : ℕ → Posted
  network_error : String → Posted

pub data Delivery : Type 0 where
  nothing_to_send : Delivery
  delivered : ℕ → Delivery
  undelivered : String → Delivery
  rejected : Delivery

pub judge_answer : Posted → Delivery
judge_answer (answered status) =
    if leb 300 status then undelivered "callback returned an error status" else delivered status
judge_answer (network_error message) = undelivered message

pub tenant_of_job : Db → Job → Option Tenant
tenant_of_job db job = elim (find job.agent_id db.agents) [
  | none ↦ none
  | some agent ↦ find agent.tenant_id db.tenants
]

pub send : (Tenant → String → Bool) → (String → Job → Posted) → Db → Job → String → Delivery
unfolding judge_answer tenant_of_job
send allows post db job url = elim (tenant_of_job db job) [
  | none ↦ undelivered "callback job has no tenant"
  | some tenant ↦ if allows tenant url then judge_answer (post url job) else rejected
]

-- `callbacks.deliver`: the outbound policy's verdict on the destination and the receiver are arguments.
unfoldable pub deliver : (Tenant → String → Bool) → (String → Job → Posted) → Db → ℕ → Delivery
unfolding send
deliver allows post db job_id = elim (find job_id db.jobs) [
  | none ↦ nothing_to_send
  | some job ↦ elim job.callback_url [
    | none ↦ nothing_to_send
    | some url ↦ if str_eq url "" then nothing_to_send else send allows post db job url
  ]
]

-- `_abandon_callback`
abandon_callback : Services → ℕ → String → Db → Db
abandon_callback s job_id reason db = elim (find job_id db.jobs) [
  | none ↦ add_event job_id (callback_failed reason) db
  | some job ↦
      notify s.permitted job.agent_id AlertEvent.callback_failed
        (add_event job_id (callback_failed reason) db)
]

pub after_delivery : Services → ℕ → ℕ → Delivery → Db → Db × Ended
unfolding abandon_callback
after_delivery s job_try job_id nothing_to_send db = (db, finished)
after_delivery s job_try job_id (delivered status) db =
    (add_event job_id (callback_delivered status) db, finished)
after_delivery s job_try job_id rejected db =
    (abandon_callback s job_id "destination rejected, not retrying" db, finished)
after_delivery s job_try job_id (undelivered message) db =
    if leb s.settings.callback_max_tries job_try
    then (abandon_callback s job_id message db, finished)
    else (db, retry_after (15 * 2 ^ (job_try - 1)))

-- The task `deliver_callback`.
unfoldable pub call_back :
    Services → (Tenant → String → Bool) → (String → Job → Posted) → ℕ → ℕ → Db → Db × Ended
unfolding after_delivery
call_back s allows post job_try job_id db =
    after_delivery s job_try job_id (deliver allows post db job_id) db

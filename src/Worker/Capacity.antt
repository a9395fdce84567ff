-- ===== src/Worker/Capacity.antt =====
-- The tenant's capacity, and a job that it holds back.
use sleeper_service.Base.{ℕ, zero, suc, ◌≡◌, true, false, some}
use sleeper_service.Base.Table.{find}
use sleeper_service.Models.Json.{get}
use sleeper_service.Models.Auth.{Tenant, tenant_keyed}
use sleeper_service.Models.Agents.{Agent, agent_keyed}
use sleeper_service.Models.Jobs.{Job, job_keyed}
use sleeper_service.State.{Db}
use sleeper_service.Services.{Services}
use sleeper_service.Worker.{work, cap_of, is_running}

-- One delivery after another of the task that each delivery enqueues.
pub redelivered : Services → ℕ → ℕ → Db → Db
redelivered s job_id zero db = db
redelivered s job_id (suc n) db = redelivered s job_id n (work s 1 job_id db).0

module _ (s : Services) (job_id : ℕ) (job : Job) (agent : Agent) (tenant : Tenant)
    (runs : is_running job.status ≡ true) (real : job.is_eval ≡ false)
    (one : cap_of (get "max_concurrent_jobs" tenant.settings) ≡ some 1) where
  -- The rows of the job, of its agent and of its tenant.
  abbrev pub Stands : Db → Type 0
  Stands db =
      (find job_id db.jobs ≡ some job)
      × (find job.agent_id db.agents ≡ some agent)
      × (find agent.tenant_id db.tenants ≡ some tenant)
      × (agent.tenant_id ≡ tenant.id)

-- ===== src/Worker/Tests.antt =====
-- Deliveries of one job in a small deployment, and a tenant with room for one job.
use sleeper_service.Base.{true, some, ℕ, String, ◌≢◌, ◌<◌, ◌≡◌, some, [], ◌∷◌}
use sleeper_service.Models.Json.{number, pos, field, end}
use sleeper_service.Models.Auth.{Tenant}
use sleeper_service.Models.Jobs.{Job, JobStatus, job_keyed}
use sleeper_service.State.{Db}
use sleeper_service.Worker.{Posted, network_error, deliver, delivered, rejected, call_back}
use sleeper_service.Worker.Tries.{asks_retry}
use sleeper_service.Worker.Callbacks.{Received, call_back_verdict}
use sleeper_service.Samples.{db, services, acme, waiting}

abbrev narrow : Tenant
narrow = record acme { settings = field "max_concurrent_jobs" (number (pos 1)) end }

abbrev stuck : Job
stuck = record waiting { status = JobStatus.running }

abbrev narrow_db : Db
narrow_db = record db { tenants = narrow ∷ []; jobs = stuck ∷ [] }

-- A receiver that is down.
abbrev down : String → Job → Posted
down url job = network_error "refused"

abbrev calling_db : Db
calling_db = record db {
  jobs = record waiting { callback_url = some "https://example.com/hook" } ∷ [];
}

call_back_verdict_example :
    ((status : ℕ)
      → deliver (λ t u. true) down calling_db 7 ≡ delivered status
      → Received (λ t u. true) down calling_db 7 status)
    × (asks_retry (call_back services (λ t u. true) down 1 7 calling_db).1 ≡ true
        → ((call_back services (λ t u. true) down 1 7 calling_db).0 ≡ calling_db)
          × (1 < 5)
          × (deliver (λ t u. true) down calling_db 7 ≢ rejected))
call_back_verdict_example = call_back_verdict (λ t u. true) down calling_db 7 services 1

-- ===== src/Worker/Tries.antt =====
-- What one delivery of a job leaves, and that the deliveries end.
use sleeper_service.Base.{ℕ, zero, suc, ◌*◌, ◌-◌, ◌^◌, ◌<◌, ◌≡◌, ◌⊎◌, Bool, true, false, none, some}
use sleeper_service.Base.Tests.{if◌then◌else◌}
use sleeper_service.Models.Jobs.{queued, failed, job_keyed}
use sleeper_service.State.{Db, run_job, enqueue}
use sleeper_service.Services.{Services}
use sleeper_service.Runner.Final.{is_final}
use sleeper_service.Runner.Outcomes.{Row}
use sleeper_service.Worker.{Ended, finished, retry_after, interrupted, crashed, work}

-- A delivery that returns has put the job back on the queue as it was, or has left it with a final status.
abbrev pub Handled : Services → ℕ → ℕ → Db → Db × Ended → Type 0
Handled s job_try job_id db (d, finished) =
    (d ≡ enqueue (run_job job_id) db) ⊎ Row job_id (λ j. is_final j.status ≡ true) d.jobs
Handled s job_try job_id db (d, retry_after seconds) =
    (job_try < s.settings.job_max_tries)
    × (seconds ≡ 10 * 2 ^ (job_try - 1))
    × Row job_id (λ j. Unit) d.jobs
Handled s job_try job_id db (d, interrupted) =
    Row job_id
      (λ j.
        ((j.parent_job_id ≡ none) × (j.status ≡ queued) × (j.started_at ≡ none))
        ⊎ ((p : ℕ) × (j.parent_job_id ≡ some p) × (j.status ≡ failed)))
      d.jobs
Handled s job_try job_id db (d, crashed) = Row job_id (λ j. Unit) d.jobs

abbrev pub asks_retry : Ended → Bool
asks_retry (retry_after seconds) = true
asks_retry _ = false

-- The deliveries of one task, each with the next number of the try; fuel bounds them.
pub deliveries : Services → ℕ → ℕ → ℕ → Db → Db × Ended
deliveries s job_id zero job_try db = (db, retry_after 0)
deliveries s job_id (suc fuel) job_try db =
    let once = work s job_try job_id db in
    let rest = deliveries s job_id fuel (suc job_try) once.0 in
    if asks_retry once.1 then rest else once

-- ===== src/Runner/Outcomes.antt =====
-- How a job can be left by `execute_job`: never half done.
use sleeper_service.Base.{ℕ, ◌≡◌, ◌⊎◌, ap, ◌∙◌, Bool, true, false, none, some, List}
use sleeper_service.Base.Table.{find}
use sleeper_service.Models.Jobs.{Job, JobStatus, queued, failed, job_keyed}
use sleeper_service.State.{Db}
use sleeper_service.Services.{Services}
use sleeper_service.Runner.Finalize.{Finish, finalize, finish_row}
use sleeper_service.Runner.Row.{find-finalize}
use sleeper_service.Runner.{
  Attempt, returned, raised_transient, falls_back, raised_cancelled, no_row,
}
use sleeper_service.Runner.Final.{is_final, status-finish_row}

abbrev pub Row : ℕ → (Job → Type 0) → List Job → Type 0
Row job_id P jobs = (job : Job) × (find job_id jobs ≡ some job) × P job

-- The row of the job after an attempt. A returned attempt leaves a final status. A cancelled one leaves a job that
-- has no parent on the queue, and a delegated one failed. Only an attempt with tool output asks for another.
abbrev pub Left : Bool → ℕ → Db × Attempt → Type 0
Left prompted job_id (db, returned) = Row job_id (λ j. is_final j.status ≡ true) db.jobs
Left prompted job_id (db, raised_cancelled) =
    Row job_id
      (λ j.
        ((j.parent_job_id ≡ none) × (j.status ≡ queued) × (j.started_at ≡ none))
        ⊎ ((p : ℕ) × (j.parent_job_id ≡ some p) × (j.status ≡ failed)))
      db.jobs
Left prompted job_id (db, falls_back) = (prompted ≡ false) × Row job_id (λ j. Unit) db.jobs
Left prompted job_id (db, raised_transient message) = Row job_id (λ j. Unit) db.jobs
Left prompted job_id (db, no_row) = Row job_id (λ j. Unit) db.jobs

-- The row after `finalize`, with what the callers of it need of it.
pub Row-finalize :
    (s : Services) (job_id : ℕ) (status : JobStatus) (f : Finish) (db : Db)
    → Row job_id (λ j. Unit) db.jobs
    → Row job_id (λ j. j.status ≡ status) (finalize s job_id status f db).jobs
Row-finalize s job_id status f db (job, e, x) = (
  finish_row s db status f job,
  find-finalize s job_id status f db e,
  (status-finish_row s db status f job).0,
)

Row-Final :
    (job_id : ℕ) (status : JobStatus) (jobs : List Job)
    → is_final status ≡ true
    → Row job_id (λ j. j.status ≡ status) jobs
    → Row job_id (λ j. is_final j.status ≡ true) jobs
Row-Final job_id status jobs h (job, e, same) = (job, e, ap is_final same ∙ h)

pub finalize-Final :
    (s : Services) (job_id : ℕ) (status : JobStatus) (f : Finish) (db : Db)
    → is_final status ≡ true
    → Row job_id (λ j. Unit) db.jobs
    → Row job_id (λ j. is_final j.status ≡ true) (finalize s job_id status f db).jobs
finalize-Final s job_id status f db h row =
    Row-Final job_id status (finalize s job_id status f db).jobs h
      (Row-finalize s job_id status f db row)

-- The tools of a run delete no job.
abbrev pub KeepsJob : Services → ℕ → Type 0
KeepsJob s job_id =
    (prompted : Bool) (db : Db)
    → Row job_id (λ j. Unit) db.jobs
    → Row job_id (λ j. Unit) (s.run prompted job_id db).0.jobs

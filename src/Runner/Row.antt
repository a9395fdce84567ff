-- ===== src/Runner/Row.antt =====
-- What `_finalize` makes of the row of its job.
use sleeper_service.Base.{ℕ, ◌≡◌, refl, ◌∙◌, arith, inl, inr, some, List, [], ◌∷◌, ◌&&◌, not}
use sleeper_service.Base.Tests.{Bool-cases, Option-cases}
use sleeper_service.Base.Table.{find, modify, find-modify_self}
use sleeper_service.Models.Agents.{agent_keyed}
use sleeper_service.Models.Jobs.{Job, JobStatus, EventType, job_keyed}
use sleeper_service.State.{Db, add_event}
use sleeper_service.Services.{Services}
use sleeper_service.Runner.Finalize.{
  Finish, finalize, finish_row, finish_events, add_events, alerts_error_rate, charge,
}
use sleeper_service.Alerts.Frame.{jobs-check_error_rate, queue-check_error_rate}

pub jobs-add_events :
    (job_id : ℕ) (es : List EventType) (db : Db) → (add_events job_id es db).jobs ≡ db.jobs
jobs-add_events job_id [] db = refl
jobs-add_events job_id (e ∷ es) db = jobs-add_events job_id es (add_event job_id e db)

key-finish_row :
    (s : Services) (db : Db) (status : JobStatus) (f : Finish) (j : Job)
    → (finish_row s db status f j).id ≡ j.id
unfolding charge
key-finish_row s db status f j = ground arith

pub jobs-finalize :
    (s : Services) (job_id : ℕ) (status : JobStatus) (f : Finish) (db : Db) {job : Job}
    → find job_id db.jobs ≡ some job
    → (finalize s job_id status f db).jobs ≡ modify job_id (finish_row s db status f) db.jobs
unfolding finalize
jobs-finalize s job_id status f db {job} e =
    let committed =
      jobs-add_events job_id (finish_events s status f)
        (record db { jobs = modify job_id (finish_row s db status f) db.jobs }) in
    elim (Bool-cases (not job.is_eval && alerts_error_rate status)) [
      | inl b ↦ rw (finalize, e, b) (jobs-check_error_rate s.permitted job.agent_id _ ∙ committed)
      | inr b ↦ rw (finalize, e, b) committed
    ]

-- The row that `finalize` leaves.
pub find-finalize :
    (s : Services) (job_id : ℕ) (status : JobStatus) (f : Finish) (db : Db) {job : Job}
    → find job_id db.jobs ≡ some job
    → find job_id (finalize s job_id status f db).jobs ≡ some (finish_row s db status f job)
find-finalize s job_id status f db {job} e =
    rw (jobs-finalize s job_id status f db e)
      (find-modify_self job_id (finish_row s db status f) (key-finish_row s db status f) db.jobs e)

queue-add_events :
    (job_id : ℕ) (es : List EventType) (db : Db) → (add_events job_id es db).queue ≡ db.queue
queue-add_events job_id [] db = refl
queue-add_events job_id (e ∷ es) db = queue-add_events job_id es (add_event job_id e db)

pub queue-finalize :
    (s : Services) (job_id : ℕ) (status : JobStatus) (f : Finish) (db : Db)
    → (finalize s job_id status f db).queue ≡ db.queue
unfolding finalize
queue-finalize s job_id status f db =
    let finished : Db = record db { jobs = modify job_id (finish_row s db status f) db.jobs } in
    let committed = queue-add_events job_id (finish_events s status f) finished in
    elim (Option-cases (find job_id db.jobs)) [
      | inl n ↦ rw (finalize, n) refl
      | inr (job, e) ↦ elim (Bool-cases (not job.is_eval && alerts_error_rate status)) [
        | inl b ↦
            rw (finalize, e, b) (queue-check_error_rate s.permitted job.agent_id _ ∙ committed)
        | inr b ↦ rw (finalize, e, b) committed
      ]
    ]

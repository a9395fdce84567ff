-- ===== src/Alerts/Frame.antt =====
-- What an alert leaves as it is: the rows of jobs, the queue and the eval runs.
use sleeper_service.Base.{ℕ, ◌≡◌, refl, arith, String, Bool, List, [], ◌∷◌}
use sleeper_service.Models.Agents.{agent_keyed}
use sleeper_service.Models.Jobs.{job_keyed}
use sleeper_service.State.{Db, AlertKey, AlertEvent}
use sleeper_service.Alerts.{deliver, notify_with, notify, check_error_rate}

jobs-deliver :
    (key : AlertKey) (event : AlertEvent) (urls : List String) (db : Db)
    → (deliver key event urls db).jobs ≡ db.jobs
unfolding deliver
jobs-deliver key event [] db = refl
jobs-deliver key event (u ∷ us) db = refl

pub jobs-notify_with :
    (permitted : String → Bool) (key : AlertKey) (agent_id : ℕ) (event : AlertEvent) (db : Db)
    → (notify_with permitted key agent_id event db).jobs ≡ db.jobs
unfolding notify_with
jobs-notify_with permitted key agent_id event db = ground (arith, jobs-deliver key event)

pub jobs-notify :
    (permitted : String → Bool) (agent_id : ℕ) (event : AlertEvent) (db : Db)
    → (notify permitted agent_id event db).jobs ≡ db.jobs
unfolding notify
jobs-notify permitted agent_id event db = jobs-notify_with permitted _ agent_id event db

pub jobs-check_error_rate :
    (permitted : String → Bool) (agent_id : ℕ) (db : Db)
    → (check_error_rate permitted agent_id db).jobs ≡ db.jobs
unfolding check_error_rate
jobs-check_error_rate permitted agent_id db = ground (arith, jobs-notify permitted agent_id)

queue-deliver :
    (key : AlertKey) (event : AlertEvent) (urls : List String) (db : Db)
    → (deliver key event urls db).queue ≡ db.queue
unfolding deliver
queue-deliver key event [] db = refl
queue-deliver key event (u ∷ us) db = refl

pub queue-notify_with :
    (permitted : String → Bool) (key : AlertKey) (agent_id : ℕ) (event : AlertEvent) (db : Db)
    → (notify_with permitted key agent_id event db).queue ≡ db.queue
unfolding notify_with
queue-notify_with permitted key agent_id event db = ground (arith, queue-deliver key event)

pub queue-notify :
    (permitted : String → Bool) (agent_id : ℕ) (event : AlertEvent) (db : Db)
    → (notify permitted agent_id event db).queue ≡ db.queue
unfolding notify
queue-notify permitted agent_id event db = queue-notify_with permitted _ agent_id event db

pub queue-check_error_rate :
    (permitted : String → Bool) (agent_id : ℕ) (db : Db)
    → (check_error_rate permitted agent_id db).queue ≡ db.queue
unfolding check_error_rate
queue-check_error_rate permitted agent_id db = ground (arith, queue-notify permitted agent_id)

runs-deliver :
    (key : AlertKey) (event : AlertEvent) (urls : List String) (db : Db)
    → (deliver key event urls db).eval_runs ≡ db.eval_runs
unfolding deliver
runs-deliver key event [] db = refl
runs-deliver key event (u ∷ us) db = refl

pub runs-notify_with :
    (permitted : String → Bool) (key : AlertKey) (agent_id : ℕ) (event : AlertEvent) (db : Db)
    → (notify_with permitted key agent_id event db).eval_runs ≡ db.eval_runs
unfolding notify_with
runs-notify_with permitted key agent_id event db = ground (arith, runs-deliver key event)

pub runs-notify :
    (permitted : String → Bool) (agent_id : ℕ) (event : AlertEvent) (db : Db)
    → (notify permitted agent_id event db).eval_runs ≡ db.eval_runs
unfolding notify
runs-notify permitted agent_id event db = runs-notify_with permitted _ agent_id event db

pub runs-check_error_rate :
    (permitted : String → Bool) (agent_id : ℕ) (db : Db)
    → (check_error_rate permitted agent_id db).eval_runs ≡ db.eval_runs
unfolding check_error_rate
runs-check_error_rate permitted agent_id db = ground (arith, runs-notify permitted agent_id)

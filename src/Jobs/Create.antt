-- ===== src/Jobs/Create.antt =====
-- What `create_job` promises: one job for a key, and a job that waits is on the queue.
use mathlib.Core.Path.{subst}
use sleeper_service.Base.{
  ℕ, ◌≤◌, ◌≡◌, ◌⊎◌, refl, sym, arith, inl, inr, String, Bool, true, false, none, some, List, [],
  ◌∷◌, ◌++◌,
}
use sleeper_service.Base.Tests.{if◌then◌else◌, Bool-cases, Option-cases, ◌==◌, str_eq_iff}
use sleeper_service.Base.Lists.{count, count-append}
use sleeper_service.Base.Table.{find, find_by, modify_by}
use sleeper_service.Base.Result.{ok}
use sleeper_service.Models.Agents.{Agent, AgentVersion}
use sleeper_service.Models.Jobs.{Job, budget_exceeded, monthly_limit, job_keyed}
use sleeper_service.State.{Db, AlertEvent, run_job}
use sleeper_service.Services.{Services}
use sleeper_service.Spending.{budget_exhausted}
use sleeper_service.Alerts.Frame.{jobs-notify}
use sleeper_service.Runner.Finalize.{Finish, finalize, mark_job, finish_row, with_error, charge}
use sleeper_service.Runner.Row.{jobs-finalize}
use sleeper_service.Jobs.{
  Order, has_key, existing, new_job, added, pre_flight, create_job, limit_of,
}

-- No agent has two jobs with one idempotency key: the table's unique constraint.
abbrev pub IsKeyed : List Job → Type 0
IsKeyed jobs = (agent_id : ℕ) (k : String) → count (has_key agent_id k) jobs ≤ 1

-- The next id is that of no job.
abbrev pub IsFresh : Db → Type 0
IsFresh db = find db.next_id db.jobs ≡ none

absent_count :
    (agent_id : ℕ) (k : String) (jobs : List Job)
    → find_by (has_key agent_id k) jobs ≡ none
    → count (has_key agent_id k) jobs ≡ 0
absent_count agent_id k [] e = refl
absent_count agent_id k (j ∷ js) e = ground (arith, absent_count agent_id k js)

module _ (s : Services) (agent : Agent) (version : AgentVersion) (o : Order) (sync : Bool)
    (db : Db) where
  abbrev pub job_added : Job
  job_added = new_job db agent version o

  -- Either the job waits, and is on the queue unless it is run inline, or it was refused.
  abbrev pub Made : Db → Type 0
  Made db' =
      ((budget_exhausted (added agent version o sync db) agent ≡ none)
        × (db'.jobs ≡ db.jobs ++ job_added ∷ [])
        × (db'.queue ≡ (if sync then db.queue else db.queue ++ run_job db.next_id ∷ [])))
      ⊎ ((spend : ℕ) × (budget_exhausted (added agent version o sync db) agent ≡ some spend)
          × (db'.queue ≡ db.queue)
          × ((j : Job) × (find db.next_id db'.jobs ≡ some j) × (j.status ≡ budget_exceeded)))

count-modify_keeps :
    (q p : Job → Bool) (f : Job → Job)
    → ((j : Job) → q (f j) ≡ q j)
    → (js : List Job) → count q (modify_by p f js) ≡ count q js
count-modify_keeps q p f keeps [] = refl
count-modify_keeps q p f keeps (j ∷ js) = ground (arith, keeps j, count-modify_keeps q p f keeps js)

has_key-finish_row :
    (s : Services) (d : Db) (f : Finish) (a : ℕ) (k : String) (j : Job)
    → has_key a k (finish_row s d budget_exceeded f j) ≡ has_key a k j
unfolding charge
has_key-finish_row s d f a k j = ground arith

names_key :
    (agent : Agent) (version : AgentVersion) (o : Order) (db : Db) (a : ℕ) (k : String)
    → has_key a k (new_job db agent version o) ≡ true
    → (a ≡ agent.id) × (o.idempotency_key ≡ some k)
names_key agent version o db a k h = elim (Option-cases o.idempotency_key) [
  | inl n ↦ absurd (ground arith)
  | inr (j, e) ↦ (ground arith, ground (arith, (str_eq_iff j k).0))
]

IsKeyed-added :
    (agent : Agent) (version : AgentVersion) (o : Order) (sync : Bool) (db : Db)
    → existing agent.id o.idempotency_key db.jobs ≡ none
    → IsKeyed db.jobs
    → IsKeyed (added agent version o sync db).jobs
IsKeyed-added agent version o sync db absent h a k =
    let j = new_job db agent version o in
    rw (count-append (has_key a k) db.jobs (j ∷ [])) (elim (Bool-cases (has_key a k j)) [
      | inr n ↦ rw n (omega (arith, h a k))
      | inl y ↦
          let (ea, ek) = names_key agent version o db a k y in
          rw y (omega (arith, absent_count a k db.jobs (rw (sym ea, ek) at absent)))
    ])

IsKeyed-finalize :
    (s : Services) (i : ℕ) (f : Finish) (d : Db)
    → IsKeyed d.jobs
    → IsKeyed (finalize s i budget_exceeded f d).jobs
unfolding finalize
IsKeyed-finalize s i f d h = elim (Option-cases (find i d.jobs)) [
  | inl n ↦ rw (finalize, n) h
  | inr (job, e) ↦ λ a k.
      rw
        (
          jobs-finalize s i budget_exceeded f d e,
          count-modify_keeps (has_key a k) (λ (j : Job). j.id == i)
              (finish_row s d budget_exceeded f) (has_key-finish_row s d f a k) d.jobs,
        )
        (h a k)
]

pre_flight-IsKeyed :
    (s : Services) (agent : Agent) (sync : Bool) (i : ℕ) (d : Db)
    → IsKeyed d.jobs
    → IsKeyed (pre_flight s agent sync i d).jobs
unfolding pre_flight mark_job
pre_flight-IsKeyed s agent sync i d h = elim (Option-cases (budget_exhausted d agent)) [
  | inl e ↦ elim (Bool-cases sync) [
    | inl b ↦ rw (pre_flight, e, b) h
    | inr b ↦ rw (pre_flight, e, b) h
  ]
  | inr (spend, e) ↦
      let refused = with_error (monthly_limit spend (limit_of agent)) in
      let marked = finalize s i budget_exceeded refused d in
      rw (pre_flight, e, mark_job)
        (subst IsKeyed (sym (jobs-notify s.permitted agent.id AlertEvent.budget marked))
          (IsKeyed-finalize s i refused d h))
]

module _ (s : Services) (race : Db → Db) (agent : Agent) (version : AgentVersion) (o : Order)
    (sync : Bool) (db : Db) where
  -- What a call of `create_job` gives: a job that was there, or the new one.
  abbrev pub Created : Db × ℕ × Bool → Type 0
  Created (db', i, existed) =
      ((existed ≡ true)
        × ((db' ≡ db) ⊎ (db' ≡ race db))
        × ((job : Job) × (existing agent.id o.idempotency_key db'.jobs ≡ some job) × (i ≡ job.id)))
      ⊎ ((existed ≡ false)
          × (existing agent.id o.idempotency_key (race db).jobs ≡ none)
          × (i ≡ (race db).next_id)
          × Made s agent version o sync (race db) db')

  -- Where neither the table nor what concurrent transactions commit has two jobs of one agent with one idempotency
  -- key, the table has none after the call either.
  pub create_job-IsKeyed :
      {r : Db × ℕ × Bool}
      → IsKeyed db.jobs
      → IsKeyed (race db).jobs
      → create_job s race agent version o sync db ≡ ok r
      → IsKeyed r.0.jobs
  unfolding create_job
  create_job-IsKeyed {r} h h' made = elim (Option-cases agent.archived_at) [
    | inr (t, a) ↦ absurd (ground arith)
    | inl a ↦ elim (Option-cases (existing agent.id o.idempotency_key db.jobs)) [
      | inr (job, e) ↦
          let same : r.0 ≡ db = ground arith in subst (λ (d : Db). IsKeyed d.jobs) (sym same) h
      | inl e ↦ elim (Option-cases (existing agent.id o.idempotency_key (race db).jobs)) [
        | inr (job, w) ↦
            let same : r.0 ≡ race db = ground arith in
            subst (λ (d : Db). IsKeyed d.jobs) (sym same) h'
        | inl w ↦
            let d = added agent version o sync (race db) in
            let same : r.0 ≡ pre_flight s agent sync (race db).next_id d = ground arith in
            subst (λ (x : Db). IsKeyed x.jobs) (sym same)
              (pre_flight-IsKeyed s agent sync (race db).next_id d
                (IsKeyed-added agent version o sync (race db) w h'))
      ]
    ]
  ]

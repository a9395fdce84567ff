-- ===== src/Memory/Frame.antt =====
-- What a memory write leaves as it is: the rows of jobs, and every eval run that is there.
use sleeper_service.Base.{
  List, ◌++◌, ℕ, ◌≡◌, refl, ap, ◌∙◌, arith, inl, inr, Bool, true, false, Option, none, some,
}
use sleeper_service.Base.Tests.{Option-cases, Bool-cases, ◌==◌}
use sleeper_service.Base.Lists.{count}
use sleeper_service.Base.Table.{find, find_by-append}
use sleeper_service.Base.Text.{Text}
use sleeper_service.Models.Agents.{Agent, agent_keyed}
use sleeper_service.Models.Memory.{MemoryVersion}
use sleeper_service.Models.Jobs.{EventType, job_keyed}
use sleeper_service.Models.Evals.{EvalCase, EvalRun, run_keyed}
use sleeper_service.State.{Db}
use sleeper_service.Services.{Services}
use sleeper_service.WorkItems.{notify_created, add_memory_approval_item}
use sleeper_service.EvalGate.{maybe_trigger_memory_eval}
use sleeper_service.Memory.{
  write_memory, stored, announce, flag_of_write, tenant_of, add_job_event, add_version,
}
use sleeper_service.Alerts.Frame.{jobs-notify_with, runs-notify_with}

jobs-eval :
    (agent_id version_id : ℕ) (db : Db)
    → (maybe_trigger_memory_eval agent_id version_id db).jobs ≡ db.jobs
unfolding maybe_trigger_memory_eval
jobs-eval agent_id version_id db = ground arith

jobs-announce :
    (s : Services) (is_pending : Bool) (agent : Option Agent) (v : MemoryVersion) (db : Db)
    → (announce s is_pending agent v db).jobs ≡ db.jobs
unfolding announce notify_created
jobs-announce s false agent v db = refl
jobs-announce s true none v db = jobs-eval v.agent_id v.id db
jobs-announce s true (some agent) v db =
    jobs-notify_with s.permitted _ agent.id _ _
    ∙ jobs-eval v.agent_id v.id (add_memory_approval_item agent v db)

jobs-add_job_event :
    (job : Option ℕ) (e : EventType) (db : Db) → (add_job_event job e db).jobs ≡ db.jobs
unfolding add_job_event
jobs-add_job_event none e db = refl
jobs-add_job_event (some j) e db = refl

jobs-stored :
    (s : Services) (agent : Option Agent) (agent_id : ℕ) (t : Text) (job : Option ℕ) (p : Bool)
    (db : Db)
    → (stored s agent agent_id t job p db).0.jobs ≡ db.jobs
unfolding stored
jobs-stored s agent agent_id t job p db = jobs-announce s p agent _ _ ∙ jobs-add_job_event job _ _

pub jobs-write_memory :
    (s : Services) (agent_id : ℕ) (t : Text) (job : Option ℕ) (screened p : Bool) (db : Db)
    → (write_memory s agent_id t job screened p db).0.jobs ≡ db.jobs
unfolding write_memory
jobs-write_memory s agent_id t job screened p db =
    elim (Option-cases (flag_of_write s screened (tenant_of db (find agent_id db.agents)) t)) [
      | inl e ↦ rw (write_memory, e) (jobs-stored s _ agent_id _ job p db)
      | inr (flag, e) ↦ rw (write_memory, e) (jobs-add_job_event job _ db)
    ]

-- A row of the table of eval runs stays, whatever is added to the table.
abbrev pub HasRun : ℕ → EvalRun → Db → Type 0
HasRun i r db = find i db.eval_runs ≡ some r

module _ (i : ℕ) (r : EvalRun) where
  still_there : (rows more : List EvalRun) → find i rows ≡ some r → find i (rows ++ more) ≡ some r
  still_there rows more h = rw (find_by-append (λ (x : EvalRun). x.id == i) rows more, h) refl

  HasRun-eval :
      (agent_id version_id : ℕ) (db : Db)
      → HasRun i r db
      → HasRun i r (maybe_trigger_memory_eval agent_id version_id db)
  unfolding maybe_trigger_memory_eval
  HasRun-eval agent_id version_id db h = elim (Option-cases (find agent_id db.agents)) [
    | inl e ↦ rw (maybe_trigger_memory_eval, e) h
    | inr (agent, e) ↦ elim (Option-cases agent.current_version_id) [
      | inl n ↦ rw (maybe_trigger_memory_eval, e, n) h
      | inr (v, n) ↦
          elim (Bool-cases (count (λ (c : EvalCase). c.agent_id == agent_id) db.eval_cases == 0)) [
            | inl z ↦ rw (maybe_trigger_memory_eval, e, n, z) h
            | inr z ↦ rw (maybe_trigger_memory_eval, e, n, z) (still_there db.eval_runs _ h)
          ]
    ]
  ]

  HasRun-announce :
      (s : Services) (is_pending : Bool) (agent : Option Agent) (v : MemoryVersion) (db : Db)
      → HasRun i r db
      → HasRun i r (announce s is_pending agent v db)
  unfolding announce notify_created
  HasRun-announce s false agent v db h = h
  HasRun-announce s true none v db h = HasRun-eval v.agent_id v.id db h
  HasRun-announce s true (some agent) v db h =
      ap (find i) (runs-notify_with s.permitted _ agent.id _ _)
      ∙ HasRun-eval v.agent_id v.id (add_memory_approval_item agent v db) h

  HasRun-add_job_event :
      (job : Option ℕ) (e : EventType) (db : Db)
      → HasRun i r db
      → HasRun i r (add_job_event job e db)
  unfolding add_job_event
  HasRun-add_job_event none e db h = h
  HasRun-add_job_event (some j) e db h = h

  pub HasRun-write_memory :
      (s : Services) (agent_id : ℕ) (t : Text) (job : Option ℕ) (screened p : Bool) (db : Db)
      → HasRun i r db
      → HasRun i r (write_memory s agent_id t job screened p db).0
  unfolding write_memory stored
  HasRun-write_memory s agent_id t job screened p db h =
      elim (Option-cases (flag_of_write s screened (tenant_of db (find agent_id db.agents)) t)) [
        | inl e ↦
            rw (write_memory, e)
              (HasRun-announce s p _ _ _ (HasRun-add_job_event job _ (add_version _ db) h))
        | inr (flag, e) ↦ rw (write_memory, e) (HasRun-add_job_event job _ db h)
      ]

-- ===== src/Memory/Versions.antt =====
-- What a write does to an agent's memory: the numbers of its versions, and the version that a job is given.
use sleeper_service.Base.{
  ℕ, ◌+◌, ◌≤◌, ◌<◌, ◌≡◌, ◌⊎◌, refl, ap, ◌∙◌, sym, inl, inr, String, Bool, true, false, Option, none,
  some, List, [], ◌∷◌, ◌++◌, arith,
}
use mathlib.Core.Path.{subst}
use sleeper_service.Base.Tests.{if◌then◌else◌, Bool-cases, Option-cases}
use sleeper_service.Base.Lists.{count, count-append, length}
use sleeper_service.Base.Table.{find}
use sleeper_service.Base.Text.{Text}
use sleeper_service.Models.Agents.{Agent, agent_keyed}
use sleeper_service.Models.Jobs.{Flag, EventType, memory_write_blocked}
use sleeper_service.Models.Memory.{MemoryVersion}
use sleeper_service.State.{Db, AlertKey, AlertEvent}
use sleeper_service.Services.{Services}
use sleeper_service.Alerts.{notify_with, deliver}
use sleeper_service.WorkItems.{notify_created, add_memory_approval_item}
use sleeper_service.EvalGate.{maybe_trigger_memory_eval}
use sleeper_service.Memory.{
  newest, latest_memory, max_version_no, is_active_of, is_version, write_memory, announce, stored,
  new_version, add_job_event, flag_of_write, tenant_of, capped, compacted_content,
}
use sleeper_service.Memory.Cap.{enforce_size_cap_total}

-- The tables that no alert touches.
versions-deliver :
    (key : AlertKey) (event : AlertEvent) (urls : List String) (db : Db)
    → (deliver key event urls db).memory_versions ≡ db.memory_versions
unfolding deliver
versions-deliver key event [] db = refl
versions-deliver key event (u ∷ us) db = refl

versions-notify_with :
    (permitted : String → Bool) (key : AlertKey) (agent_id : ℕ) (event : AlertEvent) (db : Db)
    → (notify_with permitted key agent_id event db).memory_versions ≡ db.memory_versions
unfolding notify_with
versions-notify_with permitted key agent_id event db = ground (arith, versions-deliver key event)

versions-eval :
    (agent_id version_id : ℕ) (db : Db)
    → (maybe_trigger_memory_eval agent_id version_id db).memory_versions ≡ db.memory_versions
unfolding maybe_trigger_memory_eval
versions-eval agent_id version_id db = ground arith

versions-announce :
    (s : Services) (is_pending : Bool) (agent : Option Agent) (v : MemoryVersion) (db : Db)
    → (announce s is_pending agent v db).memory_versions ≡ db.memory_versions
unfolding announce notify_created
versions-announce s false agent v db = refl
versions-announce s true none v db = versions-eval v.agent_id v.id db
versions-announce s true (some agent) v db =
    versions-notify_with s.permitted _ agent.id _ _
    ∙ versions-eval v.agent_id v.id (add_memory_approval_item agent v db)

versions-add_job_event :
    (job : Option ℕ) (e : EventType) (db : Db)
    → (add_job_event job e db).memory_versions ≡ db.memory_versions
unfolding add_job_event
versions-add_job_event none e db = refl
versions-add_job_event (some j) e db = refl

-- No version of the agent has a number above the greatest.
count-above :
    (agent_id k : ℕ) (vs : List MemoryVersion)
    → max_version_no agent_id vs < k
    → count (is_version agent_id k) vs ≡ 0
unfolding max_version_no
count-above agent_id k [] lt = refl
count-above agent_id k (v ∷ vs) lt = ground (arith, count-above agent_id k vs)

newest-append_active :
    (agent_id : ℕ) (v : MemoryVersion) (vs : List MemoryVersion)
    → is_active_of agent_id v ≡ true
    → max_version_no agent_id vs < v.version_no
    → newest (is_active_of agent_id) (vs ++ v ∷ []) ≡ some v
unfolding newest max_version_no
newest-append_active agent_id v [] h lt = ground arith
newest-append_active agent_id v (w ∷ vs) h lt = ground (arith, newest-append_active agent_id v vs)

newest-append_other :
    (p : MemoryVersion → Bool) (v : MemoryVersion) (vs : List MemoryVersion)
    → p v ≡ false
    → newest p (vs ++ v ∷ []) ≡ newest p vs
unfolding newest
newest-append_other p v [] h = ground arith
newest-append_other p v (w ∷ vs) h = ground (arith, newest-append_other p v vs)

length-capped : (s : Services) (t : Text) → length (capped s t) ≤ s.settings.memory_max_chars
unfolding capped
length-capped s t =
    let (u, e, le, _) = enforce_size_cap_total s.settings.memory_max_chars t in
    subst
      (λ (o : Option Text).
        length (elim o [ none ↦ [] | some c ↦ c ]) ≤ s.settings.memory_max_chars)
      (sym e) le

versions-stored :
    (s : Services) (agent : Option Agent) (agent_id : ℕ) (t : Text) (job : Option ℕ) (p : Bool)
    (db : Db)
    → (stored s agent agent_id t job p db).0.memory_versions
      ≡ db.memory_versions ++ new_version db agent_id t job p ∷ []
unfolding stored
versions-stored s agent agent_id t job p db =
    versions-announce s p agent _ _ ∙ versions-add_job_event job _ _

-- No two versions of an agent have one number: the table's unique constraint.
abbrev pub IsNumbered : Db → Type 0
IsNumbered db = (agent_id k : ℕ) → count (is_version agent_id k) db.memory_versions ≤ 1

-- What a write that is not refused adds: one version, numbered one above the agent's greatest, with a content
-- within the cap. A job is given it at once, or the version of before while it waits for its approval.
abbrev pub Wrote : Services → ℕ → Bool → Db → Db → ℕ → Type 0
Wrote s agent_id is_pending db db' i =
    (v : MemoryVersion) × (v.id ≡ i)
    × (v.agent_id ≡ agent_id)
    × (db'.memory_versions ≡ db.memory_versions ++ v ∷ [])
    × (v.version_no ≡ max_version_no agent_id db.memory_versions + 1)
    × (length v.content ≤ s.settings.memory_max_chars)
    × (latest_memory db' agent_id ≡ (if is_pending then latest_memory db agent_id else some v))

count-append_next :
    (agent_id : ℕ) (v : MemoryVersion) (vs : List MemoryVersion)
    → v.agent_id ≡ agent_id
    → v.version_no ≡ max_version_no agent_id vs + 1
    → (a k : ℕ) → count (is_version a k) vs ≤ 1
    → count (is_version a k) (vs ++ v ∷ []) ≤ 1
count-append_next agent_id v vs owner number a k h =
    ground (arith, count-append (is_version a k) vs (v ∷ []), count-above agent_id k vs)

module _ (s : Services) (agent_id : ℕ) (content : Text) (job : Option ℕ)
    (screened is_pending : Bool) (db : Db) where
  -- The flag that the screen of the write raises, if any.
  abbrev pub write_flag : Option Flag
  write_flag = flag_of_write s screened (tenant_of db (find agent_id db.agents)) content

  newest-new_version :
      (t : Text)
      → (let v = new_version db agent_id t job is_pending in
          newest (is_active_of agent_id) (db.memory_versions ++ v ∷ [])
          ≡ (if is_pending then latest_memory db agent_id else some v))
  unfolding latest_memory
  newest-new_version t =
      let v = new_version db agent_id t job is_pending in
      elim (Bool-cases is_pending) [
        | inl e ↦ ground (arith, newest-append_other (is_active_of agent_id) v db.memory_versions)
        | inr e ↦ ground (arith, newest-append_active agent_id v db.memory_versions)
      ]

  stored-Wrote :
      (agent : Option Agent) (t : Text)
      → (let r = stored s agent agent_id (capped s t) job is_pending db in
          (i : ℕ) × (r.1 ≡ some i) × Wrote s agent_id is_pending db r.0 i)
  unfolding stored latest_memory
  stored-Wrote agent t =
      let v = new_version db agent_id (capped s t) job is_pending in
      let table = versions-stored s agent agent_id (capped s t) job is_pending db in
      (
        v.id,
        refl,
        (
          v,
          refl,
          refl,
          table,
          refl,
          length-capped s t,
          ap (newest (is_active_of agent_id)) table ∙ newest-new_version (capped s t),
        ),
      )

  write_as : write_memory s agent_id content job screened is_pending db ≡ elim write_flag [
    | some flag ↦ (add_job_event job (memory_write_blocked flag) db, none)
    | none ↦
        stored s
          (find agent_id db.agents)
          agent_id
          (capped s (compacted_content s (tenant_of db (find agent_id db.agents)) content))
          job
          is_pending
          db
  ]
  unfolding write_memory
  write_as = refl

  -- A write has one of two outcomes. Where the screen flags the content, no version is stored. Otherwise a version
  -- is: its number is one above the agent's greatest, its content is within the cap, and it is what the next job
  -- is given, unless it is pending: then jobs are given what they were given before.
  pub write_memory_outcome :
      (let r = write_memory s agent_id content job screened is_pending db in
        ((flag : Flag) × (write_flag ≡ some flag)
          × (r.1 ≡ none)
          × (r.0.memory_versions ≡ db.memory_versions))
        ⊎ ((write_flag ≡ none) × ((i : ℕ) × (r.1 ≡ some i) × Wrote s agent_id is_pending db r.0 i)))
  write_memory_outcome = elim (Option-cases write_flag) [
    | inl e ↦ inr (e, rw (write_as, e) (stored-Wrote (find agent_id db.agents) _))
    | inr (flag, e) ↦
        inl (flag, e, rw (write_as, e) refl, rw (write_as, e) (versions-add_job_event job _ db))
  ]

  -- A write keeps the numbers of every agent's versions distinct.
  pub write_memory-IsNumbered :
      IsNumbered db → IsNumbered (write_memory s agent_id content job screened is_pending db).0
  write_memory-IsNumbered h a k = elim write_memory_outcome [
    | inl (flag, f, r, same) ↦ rw same (h a k)
    | inr (f, (i, r, (v, key, owner, table, number, fits, latest))) ↦
        rw table (count-append_next agent_id v db.memory_versions owner number a k (h a k))
  ]

-- ===== src/Memory/Govern.antt =====
-- What approval, rejection and rollback do to the memory that an agent's jobs are given.
use sleeper_service.Base.{
  ℕ, ◌≤◌, ◌≡◌, refl, ap, ◌∙◌, Bool, true, Option, none, some, List, [], ◌∷◌, ◌&&◌, not, arith, inl,
  inr, ◌⊎◌,
}
use sleeper_service.Base.Tests.{◌==◌, ==_iff, Option-cases}
use sleeper_service.Base.Lists.{count}
use sleeper_service.Base.Table.{find_by, modify, find_by_passes}
use sleeper_service.Base.Result.{ok, err, conflict}
use sleeper_service.Models.Agents.{Agent}
use sleeper_service.Models.Memory.{MemoryVersion, MemoryStatus, pending, memory_keyed}
use sleeper_service.Models.Work.{WorkItem, memory_approval, Resolution}
use sleeper_service.WorkItems.{
  is_for_version, version_of, version_status, ensure_memory_approval_item, resolve_work_item,
}
use sleeper_service.WorkItems.Resolve.{resolve_applies}
use sleeper_service.State.{Db}
use sleeper_service.Memory.{
  newest, latest_memory, is_active_of, is_version, rollback_memory, decide_memory,
}

abbrev pub withdraw : MemoryVersion → MemoryVersion
withdraw v = record v { status = MemoryStatus.rejected }

abbrev pub has_id : ℕ → MemoryVersion → Bool
has_id i w = w.id == i

names_version : (i : ℕ) (w : WorkItem) → is_for_version i w ≡ true → w.memory_version_id ≡ some i
names_version i w h = ground arith

-- A version of the agent that is active and is not the one with that id.
abbrev pub is_other_of : ℕ → ℕ → MemoryVersion → Bool
is_other_of agent_id i w = is_active_of agent_id w && not (w.id == i)

newest-absent :
    (agent_id i : ℕ) (vs : List MemoryVersion)
    → count (has_id i) vs ≡ 0
    → newest (is_active_of agent_id) vs ≡ newest (is_other_of agent_id i) vs
unfolding newest
newest-absent agent_id i [] h = refl
newest-absent agent_id i (v ∷ vs) h = ground (arith, newest-absent agent_id i vs)

newest-withdraw :
    (agent_id i : ℕ) (vs : List MemoryVersion)
    → count (has_id i) vs ≤ 1
    → newest (is_active_of agent_id) (modify i withdraw vs) ≡ newest (is_other_of agent_id i) vs
unfolding newest
newest-withdraw agent_id i [] h = refl
newest-withdraw agent_id i (v ∷ vs) h =
    ground (arith, newest-withdraw agent_id i vs, newest-absent agent_id i vs)

latest-withdraw :
    (agent_id i : ℕ) (db : Db)
    → count (has_id i) db.memory_versions ≤ 1
    → latest_memory (record db { memory_versions = modify i withdraw db.memory_versions }) agent_id
      ≡ newest (is_other_of agent_id i) db.memory_versions
unfolding latest_memory
latest-withdraw agent_id i db h = newest-withdraw agent_id i db.memory_versions h

-- Primary keys are distinct.
abbrev pub HasDistinctIds : Db → Type 0
HasDistinctIds db = (i : ℕ) → count (has_id i) db.memory_versions ≤ 1

-- A rollback withdraws the memory that jobs are given, and they are given the newest of the other active versions,
-- if there is one: its number is the answer. Without an active version the rollback is a conflict.
pub rollback_memory_verdict :
    (db : Db) (agent_id : ℕ)
    → HasDistinctIds db
    → ((latest_memory db agent_id ≡ none) × (rollback_memory db agent_id ≡ err conflict))
      ⊎ ((v : MemoryVersion) × (db' : Db) × (answer : Option ℕ) × (latest_memory db agent_id
            ≡ some v)
          × (rollback_memory db agent_id ≡ ok (db', answer))
          × (db'.memory_versions ≡ modify v.id withdraw db.memory_versions)
          × (latest_memory db' agent_id ≡ newest (is_other_of agent_id v.id) db.memory_versions)
          × (answer
              ≡ elim (latest_memory db' agent_id) [ none ↦ none | some w ↦ some w.version_no ]))
unfolding rollback_memory
rollback_memory_verdict db agent_id h = elim (Option-cases (latest_memory db agent_id)) [
  | inl e ↦ inl (e, rw e refl)
  | inr (v, e) ↦
      let db' : Db = record db { memory_versions = modify v.id withdraw db.memory_versions } in
      inr (v, db', _, e, rw e refl, refl, latest-withdraw agent_id v.id db (h v.id), refl)
]

-- An item that names a memory version is its approval.
abbrev pub HasApprovals : Db → Type 0
HasApprovals db =
    (i : ℕ) (w : WorkItem)
    → find_by (is_for_version i) db.work_items ≡ some w
    → w.kind ≡ memory_approval

ensured-approves :
    (db : Db) (agent : Agent) (v : MemoryVersion)
    → HasApprovals db
    → (let e = ensure_memory_approval_item agent v db in
        (e.1.kind ≡ memory_approval)
        × (e.1.memory_version_id ≡ some v.id)
        × (e.0.memory_versions ≡ db.memory_versions))
unfolding ensure_memory_approval_item
ensured-approves db agent v h = elim (Option-cases (find_by (is_for_version v.id) db.work_items)) [
  | inl e ↦ rw (ensure_memory_approval_item, e) (refl, refl, refl)
  | inr (w, e) ↦
      rw (ensure_memory_approval_item, e)
        (
          h v.id w e,
          names_version v.id w (find_by_passes (is_for_version v.id) db.work_items e),
          refl,
        )
]

version_of-id :
    (item : WorkItem) (i : ℕ) (vs : List MemoryVersion) {w : MemoryVersion}
    → item.memory_version_id ≡ some i
    → version_of item vs ≡ some w
    → w.id ≡ i
version_of-id item i vs {w} e found =
    (==_iff w.id i).0 (find_by_passes (has_id i) vs (rw e at found))

resolve_approval :
    (db : Db) (item : WorkItem) (i : ℕ) (r : Resolution) (user_id : ℕ) {db' : Db}
    → item.kind ≡ memory_approval
    → item.memory_version_id ≡ some i
    → resolve_work_item db item r none user_id ≡ ok db'
    → db'.memory_versions
      ≡ modify i (λ (w : MemoryVersion). record w { status = version_status r }) db.memory_versions
resolve_approval db item i r user_id {db'} kind names done =
    elim (resolve_applies db item r none user_id {db' = db'} done) [
      | inl (k, same) ↦ absurd (cc)
      | inr (k, (w, found, waits, table)) ↦
          table
          ∙ ap
              (λ j.
                modify j (λ (u : MemoryVersion). record u { status = version_status r })
                  db.memory_versions)
              (version_of-id item i db.memory_versions {w = w} names found)
    ]

-- Approving or rejecting a version by its number succeeds only while the version is pending. It makes the version
-- active or rejected, and changes no other version, whether its item was in the inbox or had to be added.
pub decide_memory_applies :
    (db : Db) (agent : Agent) (version_no : ℕ) (r : Resolution) (user_id : ℕ) {db' : Db}
    → HasApprovals db
    → decide_memory db agent version_no r user_id ≡ ok db'
    → (v : MemoryVersion) × (find_by (is_version agent.id version_no) db.memory_versions ≡ some v)
      × (v.status ≡ pending)
      × (db'.memory_versions
          ≡ modify v.id
              (λ (w : MemoryVersion). record w { status = version_status r })
              db.memory_versions)
unfolding decide_memory
decide_memory_applies db agent version_no r user_id {db'} h done =
    elim (Option-cases (find_by (is_version agent.id version_no) db.memory_versions)) [
      | inl e ↦ absurd (ground arith)
      | inr (v, e) ↦
          let ensured = ensure_memory_approval_item agent v db in
          let (kind, names, table) = ensured-approves db agent v h in
          let resolve : resolve_work_item ensured.0 ensured.1 r none user_id ≡ ok db' =
            ground arith in
          (
            v,
            e,
            ground arith,
            rw table at (
                resolve_approval ensured.0 ensured.1 v.id r user_id {db' = db'} kind names resolve),
          )
    ]

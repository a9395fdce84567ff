-- ===== src/Memory.antt =====
-- runtime/memory.py: an agent's memory document, every edit of which is a new version, and the governance of
-- api/v1/memory_admin.py. The proofs are in the modules below.
pub mod Cap
pub mod Frame
pub mod Versions
pub mod Govern
mod Tests
use sleeper_service.Base.{
  ℕ, suc, ◌+◌, String, Bool, true, false, Option, none, some, List, [], ◌∷◌, ◌++◌, ◌&&◌, ◌||◌,
}
use sleeper_service.Base.Tests.{leb, ltb, ◌==◌, str_eq, if◌then◌else◌}
use sleeper_service.Base.Lists.{any, select, length}
use sleeper_service.Base.Table.{find, find_by, modify}
use sleeper_service.Base.Text.{Text}
use sleeper_service.Base.Result.{Result, ok, err, ◌>>=◌, ◌>>◌, guard, or_raise, not_found, conflict}
use sleeper_service.Models.Json.{Value, text, Fields, end, get, is_true, as_object}
use sleeper_service.Models.Auth.{Role, Tenant, tenant_keyed}
use sleeper_service.Models.Agents.{Agent, agent_keyed}
use sleeper_service.Models.Jobs.{
  EventType, Flag, memory_write_blocked, memory_updated, memory_update_pending,
}
use sleeper_service.Models.Memory.{
  MemoryVersion, MemoryStatus, active, pending, is_active, is_pending, memory_keyed,
}
use sleeper_service.State.{Db, add_event}
use sleeper_service.Services.{Services, screen, heuristics}
use sleeper_service.Models.Work.{memory_approval, Resolution}
use sleeper_service.WorkItems.{
  add_memory_approval_item, ensure_memory_approval_item, new_item, notify_created,
  resolve_work_item,
}
use sleeper_service.EvalGate.{maybe_trigger_memory_eval}
use Cap.{enforce_size_cap, strip_space}

abbrev pub memory_enabled : Fields → Bool
memory_enabled options = is_true (get "memory" options)

abbrev pub learning_enabled : Fields → Bool
learning_enabled options = memory_enabled options && is_true (get "learning" options)

abbrev pub approval_required : Fields → Bool
approval_required options = is_true (get "memory_approval" options)

abbrev pub is_active_of : ℕ → MemoryVersion → Bool
is_active_of agent_id v = v.agent_id == agent_id && is_active v.status

-- The version with the greatest number among some: `order_by(version_no.desc()).limit(1)`.
abbrev pub newer : MemoryVersion → Option MemoryVersion → Option MemoryVersion
newer v none = some v
newer v (some w) = if ltb v.version_no w.version_no then some w else some v

unfoldable pub newest : (MemoryVersion → Bool) → List MemoryVersion → Option MemoryVersion
newest p [] = none
newest p (v ∷ vs) = let rest = newest p vs in if p v then newer v rest else rest

unfoldable pub latest_memory : Db → ℕ → Option MemoryVersion
unfolding newest
latest_memory db agent_id = newest (is_active_of agent_id) db.memory_versions

-- `coalesce(max(version_no), 0)` of the agent's versions.
unfoldable pub max_version_no : ℕ → List MemoryVersion → ℕ
max_version_no agent_id [] = 0
max_version_no agent_id (v ∷ vs) =
    let rest = max_version_no agent_id vs in
    if v.agent_id == agent_id && ltb rest v.version_no then v.version_no else rest

-- `fold_model_string` of runtime/learning.py
abbrev pub fold_model_string : Fields → Option String
fold_model_string settings = elim (get "fold_model" (as_object (get "learning" settings))) [
  | none ↦ none
  | some v ↦ elim v [ text s ↦ if str_eq s "" then none else some s | _ ↦ none ]
]

-- The answer of the fold model counts only if it is a shorter text that is not empty.
abbrev accept_compacted : Text → Option Text → Option Text
accept_compacted content none = none
accept_compacted content (some answer) =
    let compacted = strip_space answer in
    if length compacted == 0 || leb (length content) (length compacted)
    then none
    else some compacted

-- `compact_memory` of runtime/learning.py
unfoldable pub compact_memory : Services → Tenant → Text → ℕ → Option Text
compact_memory s tenant content cap = elim (fold_model_string tenant.settings) [
  | none ↦ none
  | some model ↦ accept_compacted content (s.fold_model model content cap)
]

-- The screen of a write: both tiers with the agent's tenant, and the heuristics alone without.
pub screen_write : Services → Option Tenant → Text → Option Flag
screen_write s none content = heuristics s end (content ∷ [])
screen_write s (some tenant) content = screen s tenant.settings (content ∷ [])

-- A rewrite that the heuristics flag is not taken.
pub unless_flagged : Services → Tenant → Text → Option Text → Text
unless_flagged s tenant content none = content
unless_flagged s tenant content (some compacted) =
    elim (heuristics s tenant.settings (compacted ∷ [])) [ none ↦ compacted | some flag ↦ content ]

pub compacted_content : Services → Option Tenant → Text → Text
unfolding unless_flagged
compacted_content s none content = content
compacted_content s (some tenant) content =
    let cap = s.settings.memory_max_chars in
    if leb (length content) cap
    then content
    else unless_flagged s tenant content (compact_memory s tenant content cap)

-- The loop of the cap always ends (Memory/Cap), so its other case is never taken.
pub capped : Services → Text → Text
capped s content = elim (enforce_size_cap s.settings.memory_max_chars content) [
  | none ↦ []
  | some t ↦ t
]

-- `agent` and, through it, the tenant.
pub tenant_of : Db → Option Agent → Option Tenant
tenant_of db none = none
tenant_of db (some agent) = find agent.tenant_id db.tenants

pub add_job_event : Option ℕ → EventType → Db → Db
add_job_event none type db = db
add_job_event (some job_id) type db = add_event job_id type db

abbrev pub new_version : Db → ℕ → Text → Option ℕ → Bool → MemoryVersion
new_version db agent_id content source_job_id is_pending = record {
  id = db.next_id;
  agent_id = agent_id;
  version_no = max_version_no agent_id db.memory_versions + 1;
  content = content;
  status = if is_pending then pending else active;
  source_job_id = source_job_id;
}

abbrev pub add_version : MemoryVersion → Db → Db
add_version v db = record db {
  memory_versions = db.memory_versions ++ v ∷ [];
  next_id = suc db.next_id;
}

-- What a pending version brings with it: its item in the inbox, the gating eval run, and the alert.
pub announce : Services → Bool → Option Agent → MemoryVersion → Db → Db
announce s false agent v db = db
announce s true none v db = maybe_trigger_memory_eval v.agent_id v.id db
announce s true (some agent) v db =
    let item = new_item db agent memory_approval v.source_job_id (some v.id) in
    notify_created s.permitted item
      (maybe_trigger_memory_eval v.agent_id v.id (add_memory_approval_item agent v db))

pub stored : Services → Option Agent → ℕ → Text → Option ℕ → Bool → Db → Db × Option ℕ
unfolding announce add_job_event
stored s agent agent_id content source_job_id is_pending db =
    let v = new_version db agent_id content source_job_id is_pending in
    (
      announce s is_pending agent v (
          add_job_event source_job_id
            (if is_pending then memory_update_pending v.version_no else memory_updated v.version_no)
            (add_version v db)),
      some v.id,
    )

pub flag_of_write : Services → Bool → Option Tenant → Text → Option Flag
flag_of_write s false tenant content = none
flag_of_write s true tenant content = screen_write s tenant content

unfoldable pub write_memory : Services → ℕ → Text → Option ℕ → Bool → Bool → Db → Db × Option ℕ
unfolding stored add_job_event flag_of_write screen_write compacted_content capped tenant_of
write_memory s agent_id content source_job_id screened is_pending db =
    let agent = find agent_id db.agents in
    let tenant = tenant_of db agent in
    elim (flag_of_write s screened tenant content) [
      | some flag ↦ (add_job_event source_job_id (memory_write_blocked flag) db, none)
      | none ↦
          stored s agent agent_id (capped s (compacted_content s tenant content)) source_job_id
            is_pending db
    ]

-- The governance handlers of api/v1/memory_admin.py, after the checks of visibility and role.

abbrev pub is_version : ℕ → ℕ → MemoryVersion → Bool
is_version agent_id version_no v = v.agent_id == agent_id && v.version_no == version_no

-- `approve_memory` and `reject_memory`
unfoldable pub decide_memory : Db → Agent → ℕ → Resolution → ℕ → Result Db
decide_memory db agent version_no resolution user_id = do
  version ← or_raise (find_by (is_version agent.id version_no) db.memory_versions) not_found
  guard (is_pending version.status) conflict
  let ensured = ensure_memory_approval_item agent version db
  resolve_work_item ensured.0 ensured.1 resolution none user_id

unfoldable pub rollback_memory : Db → ℕ → Result (Db × Option ℕ)
unfolding latest_memory
rollback_memory db agent_id = do
  latest ← or_raise (latest_memory db agent_id) conflict
  let db' : Db = record db {
    memory_versions =
        modify latest.id (λ (v : MemoryVersion). record v { status = MemoryStatus.rejected })
          db.memory_versions;
  }
  ok (db', elim (latest_memory db' agent_id) [ none ↦ none | some v ↦ some v.version_no ])

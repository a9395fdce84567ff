-- ===== src/WorkItems.antt =====
-- runtime/work_items.py and api/v1/work_items.py: the human-work inbox, whose items are projections of pending
-- memory versions and of escalated jobs.
pub mod Resolve
mod Tests
use sleeper_service.Base.{
  ℕ, suc, String, Bool, true, false, Option, none, some, List, [], ◌∷◌, ◌++◌,
}
use sleeper_service.Base.Tests.{◌==◌, str_eq, if◌then◌else◌}
use sleeper_service.Base.Table.{find, find_by, modify}
use sleeper_service.Base.Result.{Result, ok, err, ◌>>=◌, ◌>>◌, guard, or_raise, not_found, conflict}
use sleeper_service.Models.Json.{Fields, get, is_true}
use sleeper_service.Models.Auth.{Role}
use sleeper_service.Models.Agents.{Agent}
use sleeper_service.Models.Jobs.{EventType, human_work_resolved, human_escalated}
use sleeper_service.Models.Memory.{
  MemoryVersion, MemoryStatus, active, pending, is_pending, memory_keyed,
}
use sleeper_service.Models.Work.{
  WorkItem, WorkKind, memory_approval, human_escalation, WorkStatus, unresolved, Resolution,
  work_keyed,
}
use sleeper_service.State.{Db, human_attention, work_item, add_event}
use sleeper_service.Alerts.{notify_with}
use sleeper_service.Access.{UserPrincipal, require_role}

abbrev pub escalation_enabled : Fields → Bool
escalation_enabled options = is_true (get "human_escalation" options)

-- The row of a new item; the id is that of the next row.
abbrev pub new_item : Db → Agent → WorkKind → Option ℕ → Option ℕ → WorkItem
new_item db agent kind job_id memory_version_id = record {
  id = db.next_id;
  tenant_id = agent.tenant_id;
  team_id = agent.team_id;
  agent_id = agent.id;
  job_id = job_id;
  memory_version_id = memory_version_id;
  kind = kind;
  status = unresolved;
  resolution = none;
  response = none;
  resolved_by_user_id = none;
  resolved_at = none;
}

abbrev pub add_item : WorkItem → Db → Db
add_item item db = record db { work_items = db.work_items ++ item ∷ []; next_id = suc db.next_id }

abbrev pub add_memory_approval_item : Agent → MemoryVersion → Db → Db
add_memory_approval_item agent version db =
    add_item (new_item db agent memory_approval version.source_job_id (some version.id)) db

abbrev pub is_for_version : ℕ → WorkItem → Bool
is_for_version version_id w = elim w.memory_version_id [ none ↦ false | some v ↦ v == version_id ]

-- The item of a memory version, which is added where it is not there.
unfoldable pub ensure_memory_approval_item : Agent → MemoryVersion → Db → Db × WorkItem
ensure_memory_approval_item agent version db =
    elim (find_by (is_for_version version.id) db.work_items) [
      | some item ↦ (db, item)
      | none ↦ (
        add_memory_approval_item agent version db,
        new_item db agent memory_approval version.source_job_id (some version.id),
      )
    ]

-- Every item is announced under a key of its own.
unfoldable pub notify_created : (String → Bool) → WorkItem → Db → Db
notify_created permitted item =
    notify_with permitted (work_item item.id) item.agent_id human_attention

-- The status that a resolution gives to a memory version.
abbrev pub version_status : Resolution → MemoryStatus
version_status Resolution.approved = active
version_status _ = MemoryStatus.rejected

-- `resolution not in (...)`, for the two kinds.
abbrev pub fits : WorkKind → Resolution → Bool
fits memory_approval Resolution.approved = true
fits memory_approval Resolution.rejected = true
fits human_escalation Resolution.resolved = true
fits human_escalation Resolution.dismissed = true
fits _ _ = false

abbrev pub is_open : WorkStatus → Bool
is_open unresolved = true
is_open _ = false

abbrev pub item_status : Resolution → WorkStatus
item_status Resolution.dismissed = WorkStatus.dismissed
item_status _ = WorkStatus.resolved

-- `await db.get(MemoryVersion, item.memory_version_id)`
abbrev pub version_of : WorkItem → List MemoryVersion → Option MemoryVersion
version_of item versions = elim item.memory_version_id [ none ↦ none | some v ↦ find v versions ]

-- The branch on the kind: a memory approval changes the status of its version.
apply_kind : Db → WorkItem → WorkKind → Resolution → Result Db
apply_kind db item human_escalation resolution = ok db
apply_kind db item memory_approval resolution = do
  version ← or_raise (version_of item db.memory_versions) conflict
  guard (is_pending version.status) conflict
  ok (record db {
    memory_versions =
        modify version.id (λ (v : MemoryVersion). record v { status = version_status resolution })
          db.memory_versions;
  })

abbrev pub resolved_item : Db → Resolution → Option String → ℕ → WorkItem → WorkItem
resolved_item db resolution response user_id item = record item {
  status = item_status resolution;
  resolution = some resolution;
  response = response;
  resolved_by_user_id = some user_id;
  resolved_at = some db.now;
}

abbrev add_job_event : Option ℕ → EventType → Db → Db
add_job_event none type db = db
add_job_event (some job_id) type db = add_event job_id type db

-- `response` is none where the text is empty when stripped.
unfoldable pub resolve_work_item : Db → WorkItem → Resolution → Option String → ℕ → Result Db
unfolding apply_kind
resolve_work_item db item resolution response user_id = do
  guard (is_open item.status) conflict
  guard (fits item.kind resolution) conflict
  changed ← apply_kind db item item.kind resolution
  ok (
      add_job_event item.job_id (human_work_resolved item.id) (record changed {
        work_items =
            modify item.id (resolved_item db resolution response user_id) changed.work_items;
      }))

abbrev pub required_role : WorkKind → Role
required_role memory_approval = Role.owner
required_role human_escalation = Role.editor

-- The handler: visible to any member of the team, resolved by the role that the kind requires.
unfoldable pub resolve_item : Db → UserPrincipal → ℕ → Resolution → Option String → Result Db
unfolding resolve_work_item
resolve_item db p item_id resolution response = do
  item ← or_raise (find item_id db.work_items) not_found
  require_role p item.team_id Role.viewer
  require_role p item.team_id (required_role item.kind)
  resolve_work_item db item resolution response p.user.id

-- The tool of an agent that may escalate: an item, an event of the job, and the alert.
unfoldable pub escalate_to_human : (String → Bool) → Agent → ℕ → Db → Db × ℕ
unfolding notify_created
escalate_to_human permitted agent job_id db =
    let item = new_item db agent human_escalation (some job_id) none in
    (
      notify_created permitted item (add_event job_id (human_escalated item.id) (add_item item db)),
      item.id,
    )

-- ===== src/WorkItems/Tests.antt =====
-- The approval of a pending memory version.
use sleeper_service.Base.{ℕ, String, ◌≡◌, ◌≢◌, refl, true, Option, none, some, [], ◌∷◌}
use sleeper_service.Base.Table.{find}
use sleeper_service.Base.Result.{ok, err, conflict}
use sleeper_service.Models.Memory.{active, memory_keyed}
use sleeper_service.Models.Work.{WorkItem, memory_approval, WorkStatus, Resolution, work_keyed}
use sleeper_service.State.{Db}
use sleeper_service.WorkItems.{resolve_work_item, resolved_item, is_open, fits}
use sleeper_service.WorkItems.Resolve.{resolve_once}
use sleeper_service.Samples.{db, approval, proposed, note}

abbrev approved_db : Db
approved_db = record db {
  memory_versions = note ∷ record proposed { status = active } ∷ [];
  work_items = resolved_item db Resolution.approved none 3 approval ∷ [];
}

approves : resolve_work_item db approval Resolution.approved none 3 ≡ ok approved_db
unfolding resolve_work_item
approves = refl

resolve_once_example :
    (is_open approval.status ≡ true)
    × (fits memory_approval Resolution.approved ≡ true)
    × ((j : ℕ) → 11 ≢ j → find j approved_db.work_items ≡ find j db.work_items)
    × ((closed : WorkItem) × (find 11 approved_db.work_items ≡ some closed)
        × (closed.status ≡ WorkStatus.resolved)
        × (closed.resolution ≡ some Resolution.approved)
        × ((r' : Resolution) (text : Option String) (u : ℕ)
            → resolve_work_item approved_db closed r' text u ≡ err conflict))
resolve_once_example =
    resolve_once db approval Resolution.approved none 3 {db' = approved_db} refl approves

-- ===== src/WorkItems/Resolve.antt =====
-- The lifecycle of an item: who resolves it, once, and what that does to its memory version.
use sleeper_service.Base.{
  ℕ, String, true, false, Option, some, ◌≡◌, ◌≢◌, ◌⊎◌, refl, arith, inl, inr,
}
use sleeper_service.Base.Tests.{Option-cases}
use sleeper_service.Base.Table.{find, modify, find-modify_self, find-modify_ne}
use sleeper_service.Base.Result.{ok, err, conflict}
use sleeper_service.Models.Memory.{MemoryVersion, pending, memory_keyed}
use sleeper_service.Models.Work.{
  WorkItem, WorkKind, memory_approval, human_escalation, Resolution, work_keyed,
}
use sleeper_service.State.{Db}
use sleeper_service.Access.{UserPrincipal}
use sleeper_service.Access.Roles.{HoldsRole, require_role_verdict}
use sleeper_service.WorkItems.{
  resolve_work_item, resolve_item, version_of, version_status, item_status, resolved_item, is_open,
  fits, required_role,
}

is_open-item_status : (r : Resolution) → is_open (item_status r) ≡ false
is_open-item_status r = ground arith

closed_refuses :
    (db : Db) (item : WorkItem)
    → is_open item.status ≡ false
    → (r : Resolution) (text : Option String) (u : ℕ)
    → resolve_work_item db item r text u ≡ err conflict
unfolding resolve_work_item
closed_refuses db item h r text u = rw h refl

module _ (db : Db) (item : WorkItem) (r : Resolution) (response : Option String) (user_id : ℕ) where
  items-resolve :
      {db' : Db}
      → resolve_work_item db item r response user_id ≡ ok db'
      → db'.work_items ≡ modify item.id (resolved_item db r response user_id) db.work_items
  unfolding resolve_work_item
  items-resolve h = ground arith

  -- A resolution that succeeds finds the item open and closes it: the item's status and resolution are those
  -- asked for, every other item stays, and any further resolution of the item is a conflict.
  pub resolve_once :
      {db' : Db}
      → find item.id db.work_items ≡ some item
      → resolve_work_item db item r response user_id ≡ ok db'
      → (is_open item.status ≡ true)
        × (fits item.kind r ≡ true)
        × ((j : ℕ) → item.id ≢ j → find j db'.work_items ≡ find j db.work_items)
        × ((closed : WorkItem) × (find item.id db'.work_items ≡ some closed)
            × (closed.status ≡ item_status r)
            × (closed.resolution ≡ some r)
            × ((r' : Resolution) (text : Option String) (u : ℕ)
                → resolve_work_item db' closed r' text u ≡ err conflict))
  unfolding resolve_work_item
  resolve_once {db'} here h =
      let items = items-resolve {db' = db'} h in
      let close = resolved_item db r response user_id in
      (
        ground arith,
        ground arith,
        λ j ne. rw items (find-modify_ne item.id j close (λ w. refl) db.work_items ne),
        (
          close item,
          rw items (find-modify_self item.id close (λ w. refl) db.work_items here),
          refl,
          refl,
          λ r' text u. closed_refuses db' (close item) (is_open-item_status r) r' text u,
        ),
      )

  -- A memory approval succeeds only while its version is pending. It makes the version active if approved and
  -- rejected otherwise, and leaves every other version as it was. An escalation changes no version.
  pub resolve_applies :
      {db' : Db}
      → resolve_work_item db item r response user_id ≡ ok db'
      → ((item.kind ≡ human_escalation) × (db'.memory_versions ≡ db.memory_versions))
        ⊎ ((item.kind ≡ memory_approval)
            × ((v : MemoryVersion) × (version_of item db.memory_versions ≡ some v)
                × (v.status ≡ pending)
                × (db'.memory_versions
                    ≡ modify v.id
                        (λ (w : MemoryVersion). record w { status = version_status r })
                        db.memory_versions)))
  unfolding resolve_work_item
  resolve_applies {db'} h = split item.kind refl
    where
      split :
          (k : WorkKind)
          → item.kind ≡ k
          → ((item.kind ≡ human_escalation) × (db'.memory_versions ≡ db.memory_versions))
            ⊎ ((item.kind ≡ memory_approval)
                × ((v : MemoryVersion) × (version_of item db.memory_versions ≡ some v)
                    × (v.status ≡ pending)
                    × (db'.memory_versions
                        ≡ modify v.id
                            (λ (w : MemoryVersion). record w { status = version_status r })
                            db.memory_versions)))
      split human_escalation e = inl (e, ground arith)
      split memory_approval e = elim (Option-cases (version_of item db.memory_versions)) [
        | inl q ↦ absurd (ground arith)
        | inr (v, q) ↦ inr (e, (v, q, ground arith, ground arith))
      ]

-- Whoever resolves an item is a superuser, or holds a role in the item's team: owner for a memory approval, editor
-- or owner for an escalation.
pub resolve_item-HoldsRole :
    (db : Db) (p : UserPrincipal) (item_id : ℕ) (r : Resolution) (response : Option String)
    {db' : Db}
    → resolve_item db p item_id r response ≡ ok db'
    → (item : WorkItem) × (find item_id db.work_items ≡ some item)
      × ((p.user.is_superuser ≡ true) ⊎ HoldsRole p item.team_id (required_role item.kind))
unfolding resolve_item
resolve_item-HoldsRole db p item_id r response h =
    elim (Option-cases (find item_id db.work_items)) [
      | inl e ↦ absurd (ground arith)
      | inr (item, e) ↦ (
        item,
        e,
        (require_role_verdict p item.team_id (required_role item.kind)).0.0 (ground arith),
      )
    ]

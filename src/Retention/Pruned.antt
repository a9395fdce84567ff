-- ===== src/Retention/Pruned.antt =====
-- What a tick of the cleanup does to the jobs, and what it leaves.
use sleeper_service.Base.{
  ℕ, String, Bool, true, false, none, some, List, [], ◌∷◌, map, ◌≡◌, ◌⊎◌, refl, ap, inl, inr,
}
use sleeper_service.Base.Tests.{Bool-cases, Option-cases}
use sleeper_service.Base.Lists.{any, count}
use sleeper_service.Models.Time.{DateTime}
use sleeper_service.Models.Auth.{Tenant}
use sleeper_service.Models.Agents.{Agent}
use sleeper_service.Models.Jobs.{Job}
use sleeper_service.State.{Db}
use sleeper_service.Retention.{
  overflows, is_due, prune, prune_if, retention_of, with_count, prune_tenants, cleanup_tick,
}

-- A tenant with a retention that the job is due under.
abbrev pub IsDueUnder : List Agent → DateTime → List Tenant → Job → Type 0
IsDueUnder agents now [] j = ⊥
IsDueUnder agents now (t ∷ ts) j =
    ((days : ℕ) × (retention_of t ≡ some days) × (is_due agents now t days j ≡ true))
    ⊎ IsDueUnder agents now ts j

-- The row after the tick, against the one before.
abbrev pub IsKept : List Agent → DateTime → List Tenant → Job → Job → Type 0
IsKept agents now ts j j' = (j' ≡ j) ⊎ ((j' ≡ prune j) × IsDueUnder agents now ts j)

abbrev pub AreKept : List Agent → DateTime → List Tenant → List Job → List Job → Type 0
AreKept agents now ts [] [] = Unit
AreKept agents now ts (j ∷ js) (j' ∷ js') = IsKept agents now ts j j' × AreKept agents now ts js js'
AreKept agents now ts _ _ = ⊥

-- A tenant whose retention is longer than the calendar.
abbrev pub is_out_of_range : DateTime → Tenant → Bool
is_out_of_range now t = elim (retention_of t) [ none ↦ false | some days ↦ overflows now days ]

prune_tenants-raised :
    (agents : List Agent) (now : DateTime) (ts : List Tenant) (js : List Job)
    → any (is_out_of_range now) ts ≡ true
    → prune_tenants agents now ts js ≡ none
unfolding prune_tenants
prune_tenants-raised agents now [] js h = absurd (cc)
prune_tenants-raised agents now (t ∷ ts) js h = elim (Option-cases (retention_of t)) [
  | inl n ↦
      rw (prune_tenants, n) (prune_tenants-raised agents now ts js (rw (is_out_of_range, n) at h))
  | inr (days, e) ↦ elim (Bool-cases (overflows now days)) [
    | inl o ↦ rw (prune_tenants, e, o) refl
    | inr o ↦
        rw (prune_tenants, e, o)
          (ap (with_count (count (is_due agents now t days) js)) (
            prune_tenants-raised agents now ts (map (prune_if (is_due agents now t days)) js)
              (rw (is_out_of_range, e, o) at h)))
  ]
]

-- If one tenant's retention is so long that the cutoff would lie before the year 1, the tick raises, and no job of any
-- tenant is pruned by it.
pub cleanup_tick-raised :
    (removes : String → Bool) (db : Db)
    → any (is_out_of_range db.now) db.tenants ≡ true
    → ((cleanup_tick removes db).1 ≡ none) × ((cleanup_tick removes db).0.jobs ≡ db.jobs)
unfolding cleanup_tick
cleanup_tick-raised removes db h =
    rw (cleanup_tick, prune_tenants-raised db.agents db.now db.tenants db.jobs h) (refl, refl)

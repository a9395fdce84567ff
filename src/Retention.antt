-- ===== src/Retention.antt =====
-- runtime/retention.py: the hourly cleanup of files and of the contents of jobs. Whether the removal of an object from
-- the store goes through is a parameter.
pub mod Pruned
mod Tests
use Prim.Native.Nat.{◌/◌, ◌%◌, ◌-◌}
use sleeper_service.Base.{
  ℕ, ◌+◌, ◌*◌, String, Bool, true, false, Option, none, some, List, [], ◌∷◌, ◌&&◌, ◌||◌, not, map,
}
use sleeper_service.Base.Tests.{◌==◌, ltb, leb, str_eq, if◌then◌else◌}
use sleeper_service.Base.Lists.{any, count, select}
use sleeper_service.Models.Json.{Value, boolean, number, pos, object, Fields, end, field, get}
use sleeper_service.Models.Time.{DateTime, at_or_before}
use sleeper_service.Models.Auth.{Tenant}
use sleeper_service.Models.Agents.{Agent}
use sleeper_service.Models.Jobs.{Job, File}
use sleeper_service.State.{Db}

-- `PRUNED_MARKER`
abbrev pub pruned_marker : Value
pruned_marker = object (field "pruned" (boolean true) end)

-- Equality with the marker in the database.
abbrev pub is_marker : Value → Bool
is_marker (object (field k (boolean true) end)) = str_eq k "pruned"
is_marker _ = false

-- A number of days that is positive; a boolean is an `int`.
abbrev pub unless_zero : ℕ → Option ℕ
unless_zero ℕ.zero = none
unless_zero n = some n

abbrev pub days_of : Option Value → Option ℕ
days_of (some (number (pos n))) = unless_zero n
days_of (some (boolean true)) = some 1
days_of _ = none

-- The proleptic Gregorian calendar, with 1 January of year 1 as day 1: `date.toordinal`.
abbrev pub is_leap : ℕ → Bool
is_leap y = y % 4 == 0 && (not (y % 100 == 0) || y % 400 == 0)

abbrev pub days_before_year : ℕ → ℕ
days_before_year y = let past = y - 1 in past * 365 + past / 4 + past / 400 - past / 100

abbrev pub month_lengths : List ℕ
month_lengths = 31 ∷ 28 ∷ 31 ∷ 30 ∷ 31 ∷ 30 ∷ 31 ∷ 31 ∷ 30 ∷ 31 ∷ 30 ∷ 31 ∷ []

abbrev pub sum_first : ℕ → List ℕ → ℕ
sum_first ℕ.zero ds = 0
sum_first (ℕ.suc n) [] = 0
sum_first (ℕ.suc n) (d ∷ ds) = d + sum_first n ds

abbrev pub days_before_month : ℕ → ℕ
days_before_month m = sum_first (m - 1) month_lengths

unfoldable pub ordinal : DateTime → ℕ
ordinal t =
    days_before_year t.year
    + (days_before_month t.month + (if is_leap t.year && ltb 2 t.month then 1 else 0))
    + t.day

abbrev pub day_length : ℕ
day_length = 86400000000

-- The microseconds since the start of day 0.
unfoldable pub instant : DateTime → ℕ
unfolding ordinal
instant t =
    ordinal t * day_length + (((t.hour * 60 + t.minute) * 60 + t.second) * 1000000 + t.microsecond)

-- `created_at < now - timedelta(days=days)`
unfoldable pub is_older : ℕ → DateTime → DateTime → Bool
unfolding instant
is_older days now t = ltb (instant t + days * day_length) (instant now)

-- An OverflowError: the cutoff would lie before year 1.
unfoldable pub overflows : DateTime → ℕ → Bool
unfolding ordinal
overflows now days = leb (ordinal now) days

abbrev pub is_agent_of : ℕ → ℕ → Agent → Bool
is_agent_of tenant_id agent_id a = a.id == agent_id && a.tenant_id == tenant_id

-- The rows that the statement for a tenant changes.
unfoldable pub is_due : List Agent → DateTime → Tenant → ℕ → Job → Bool
is_due agents now tenant days j =
    any (is_agent_of tenant.id j.agent_id) agents
    && (is_older days now j.created_at && not (is_marker j.payload))

abbrev pub prune : Job → Job
prune j = record j { payload = pruned_marker; output = none }

abbrev pub prune_if : (Job → Bool) → Job → Job
prune_if due j = if due j then prune j else j

abbrev pub retention_of : Tenant → Option ℕ
retention_of t = days_of (get "job_retention_days" t.settings)

-- Another round's rows, counted.
abbrev pub with_count : ℕ → Option (List Job × ℕ) → Option (List Job × ℕ)
with_count n none = none
with_count n (some (jobs, m)) = some (jobs, n + m)

-- The loop over the tenants, which an overflow leaves before anything is committed.
unfoldable pub prune_tenants :
    List Agent → DateTime → List Tenant → List Job → Option (List Job × ℕ)
prune_tenants agents now [] jobs = some (jobs, 0)
prune_tenants agents now (t ∷ ts) jobs = elim (retention_of t) [
  | none ↦ prune_tenants agents now ts jobs
  | some days ↦
      if overflows now days
      then none
      else with_count (count (is_due agents now t days) jobs)
          (prune_tenants agents now ts (map (prune_if (is_due agents now t days)) jobs))
]

-- `File.expires_at < now`
abbrev pub is_expired : DateTime → File → Bool
is_expired now f = elim f.expires_at [ none ↦ false | some t ↦ not (at_or_before now t) ]

abbrev pub is_removed : (String → Bool) → DateTime → File → Bool
is_removed removes now f = is_expired now f && removes f.object_key

-- The files, which are committed before the jobs are looked at.
abbrev pub drop_files : (String → Bool) → Db → Db
drop_files removes db = record db {
  files = select (λ (f : File). not (is_removed removes db.now f)) db.files;
}

-- A tick with the numbers of deleted files and of pruned jobs, or none where it raises.
unfoldable pub cleanup_tick : (String → Bool) → Db → Db × Option (ℕ × ℕ)
unfolding prune_tenants
cleanup_tick removes db =
    let kept = drop_files removes db in
    elim (prune_tenants db.agents db.now db.tenants db.jobs) [
      | none ↦ (kept, none)
      | some (jobs, pruned) ↦
          (record kept { jobs = jobs }, some (count (is_removed removes db.now) db.files, pruned))
    ]

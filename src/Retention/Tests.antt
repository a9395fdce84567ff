-- ===== src/Retention/Tests.antt =====
-- Tenants with a retention of a day and with one that is out of range.
use sleeper_service.Base.{String, Bool, true, none, [], ◌∷◌, ◌≡◌, refl}
use sleeper_service.Base.Lists.{any}
use sleeper_service.Models.Json.{number, pos, end, field}
use sleeper_service.Models.Time.{DateTime}
use sleeper_service.Models.Jobs.{Job}
use sleeper_service.State.{Db}
use sleeper_service.Retention.{prune, cleanup_tick, ordinal, is_due, is_older, overflows}
use sleeper_service.Retention.Pruned.{is_out_of_range, cleanup_tick-raised}
use sleeper_service.Samples.{db, acme, waiting}

abbrev removes : String → Bool
removes key = true

abbrev epoch : DateTime
epoch = record {
  year = 1970;
  month = 1;
  day = 1;
  hour = 0;
  minute = 0;
  second = 0;
  microsecond = 0;
}

-- As Python's `date(1970, 1, 1).toordinal()`.
ordinal-epoch : ordinal epoch ≡ 719163
unfolding ordinal
ordinal-epoch = refl

abbrev old_job : Job
old_job = record waiting { created_at = epoch }

abbrev old_db : Db
old_db = record db {
  tenants = record acme { settings = field "job_retention_days" (number (pos 1)) end } ∷ [];
  jobs = waiting ∷ old_job ∷ [];
}

prunes : (cleanup_tick removes old_db).0.jobs ≡ waiting ∷ prune old_job ∷ []
unfolding cleanup_tick is_due is_older overflows
prunes = refl

abbrev blocked_db : Db
blocked_db = record old_db {
  tenants = record acme { settings = field "job_retention_days" (number (pos 1000000)) end } ∷ [];
}

out_of_range : any (is_out_of_range blocked_db.now) blocked_db.tenants ≡ true
unfolding overflows
out_of_range = refl

cleanup_tick-raised_example :
    ((cleanup_tick removes blocked_db).1 ≡ none)
    × ((cleanup_tick removes blocked_db).0.jobs ≡ blocked_db.jobs)
cleanup_tick-raised_example = cleanup_tick-raised removes blocked_db out_of_range

-- ===== src/Memory/Tests.antt =====
-- A write, a rollback and a decision in a small deployment, and the cap of a short document.
use sleeper_service.Base.{ℕ, ◌≡◌, ◌⊎◌, true, false, none, some}
use sleeper_service.Base.Text.{codes}
use sleeper_service.Models.Jobs.{Flag}
use sleeper_service.Models.Memory.{memory_keyed}
use sleeper_service.Memory.{write_memory}
use sleeper_service.Memory.Versions.{Wrote, write_flag, write_memory_outcome}
use sleeper_service.Samples.{db, services}

write_memory_outcome_example :
    (let r = write_memory services 4 (codes "be polite") none true false db in
      ((flag : Flag) × (write_flag services 4 (codes "be polite") none true false db ≡ some flag)
        × (r.1 ≡ none)
        × (r.0.memory_versions ≡ db.memory_versions))
      ⊎ ((write_flag services 4 (codes "be polite") none true false db ≡ none)
          × ((i : ℕ) × (r.1 ≡ some i) × Wrote services 4 false db r.0 i)))
write_memory_outcome_example =
    write_memory_outcome services 4 (codes "be polite") none true false db

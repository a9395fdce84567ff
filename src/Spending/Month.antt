-- ===== src/Spending/Month.antt =====
-- The month of runtime/spending.py.
use sleeper_service.Base.{◌≤◌, ◌<◌, ◌≡◌, ◌↔◌, ◌⊎◌, true, arith}
use sleeper_service.Models.Time.{DateTime, at_or_before}
use sleeper_service.Spending.{month_start}

-- A moment of the calendar: the first day of a month is day 1.
abbrev pub IsMoment : DateTime → Type 0
IsMoment t = (1 ≤ t.month) × (t.month ≤ 12) × (1 ≤ t.day)

-- A job counts towards the month of `now` exactly if it was created in that month or in a later one: the
-- comparison with the start of the month compares the months alone.
pub month_start_exact :
    (now t : DateTime)
    → IsMoment t
    → (at_or_before (month_start now) t ≡ true)
      ↔ ((now.year < t.year) ⊎ ((now.year ≡ t.year) × (now.month ≤ t.month)))
unfolding month_start at_or_before
month_start_exact now t h = (λ e. ground arith, λ e. ground arith)

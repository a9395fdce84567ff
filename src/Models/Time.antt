-- ===== src/Models/Time.antt =====
-- `datetime` values in UTC, with Python's fields and its order.
use sleeper_service.Base.{ℕ, Bool, true, false}
use sleeper_service.Base.Tests.{ltb, leb, if◌then◌else◌}

pub record DateTime : Type 0 where
  pub year : ℕ
  pub month : ℕ
  pub day : ℕ
  pub hour : ℕ
  pub minute : ℕ
  pub second : ℕ
  pub microsecond : ℕ

-- One field of a lexicographic comparison, with the comparison of the later fields.
abbrev pub lex : ℕ → ℕ → Bool → Bool
lex a b rest = if ltb a b then true else if ltb b a then false else rest

unfoldable pub at_or_before : DateTime → DateTime → Bool
at_or_before s t = lex s.year t.year (
    lex s.month t.month (
      lex s.day t.day (
        lex s.hour t.hour
          (lex s.minute t.minute (lex s.second t.second (leb s.microsecond t.microsecond))))))

-- ===== src/Access/RateLimit.antt =====
-- The fixed-window limit of auth/principal.py.
use sleeper_service.Base.{ℕ, suc, ◌+◌, ◌/◌, ◌-◌, ◌≡◌, min, some, List, [], ◌∷◌, arith}
use sleeper_service.Base.Tests.{if◌then◌else◌}
use sleeper_service.Base.Result.{Result, ok, err}
use sleeper_service.Models.Auth.{ApiKey}
use sleeper_service.Access.{Counter, counter_for, incr, enforce_rate_limit}

-- How often the counter of a key was increased in a window.
abbrev pub seen : ℕ → ℕ → List Counter → ℕ
seen k w [] = 0
seen k w (c ∷ cs) = if counter_for k w c then c.count else seen k w cs

incr_counts :
    (k w : ℕ) (cs : List Counter)
    → ((incr k w cs).1 ≡ seen k w cs + 1) × (seen k w (incr k w cs).0 ≡ seen k w cs + 1)
unfolding incr
incr_counts k w [] = ground arith
incr_counts k w (c ∷ cs) = ground (arith, incr_counts k w cs)

abbrev pub passed : Result (Unit {0}) → ℕ
passed (ok _) = 1
passed (err _) = 0

-- A run of requests with one key, each at its time: the number that are let through.
pub let_through : ApiKey → List ℕ → List Counter → ℕ
let_through key [] cs = 0
let_through key (now ∷ times) cs =
    let (cs', r) = enforce_rate_limit now key cs in passed r + let_through key times cs'

abbrev pub InWindow : ℕ → List ℕ → Type 0
InWindow w [] = Unit
InWindow w (t ∷ ts) = (t / 60 ≡ w) × InWindow w ts

abbrev pub total : List ℕ → ℕ
total [] = 0
total (t ∷ ts) = suc (total ts)

-- Of the requests with one limited key in one window, as many are let through as the limit still leaves
-- after those already counted, and no more.
pub let_through_exact :
    (key : ApiKey) (limit w : ℕ) (times : List ℕ) (cs : List Counter)
    → key.rate_limit ≡ some limit
    → InWindow w times
    → let_through key times cs ≡ min (total times) (limit - seen key.id w cs)
unfolding let_through enforce_rate_limit
let_through_exact key limit w [] cs e h = omega arith
let_through_exact key limit w (t ∷ ts) cs e h =
    ground (arith, incr_counts key.id w cs, let_through_exact key limit w ts (incr key.id w cs).0)

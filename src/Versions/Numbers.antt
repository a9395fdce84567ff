-- ===== src/Versions/Numbers.antt =====
-- The numbers of an agent's versions.
use sleeper_service.Base.{ℕ, ◌+◌, ◌≤◌, ◌<◌, ◌≡◌, ◌≢◌, List, [], ◌∷◌, ◌++◌, arith, refl}
use sleeper_service.Base.Lists.{count, count-append}
use sleeper_service.Models.Agents.{AgentVersion}
use sleeper_service.Versions.{last_version_no, numbered}

pub last-append :
    (i : ℕ) (vs : List AgentVersion) (w : AgentVersion)
    → w.agent_id ≡ i
    → last_version_no i vs < w.version_no
    → last_version_no i (vs ++ w ∷ []) ≡ w.version_no
unfolding last_version_no
last-append i [] w e h = ground arith
last-append i (v ∷ vs) w e h = ground (arith, last-append i vs w)

pub last-append_other :
    (i : ℕ) (vs : List AgentVersion) (w : AgentVersion)
    → w.agent_id ≢ i
    → last_version_no i (vs ++ w ∷ []) ≡ last_version_no i vs
unfolding last_version_no
last-append_other i [] w e = ground arith
last-append_other i (v ∷ vs) w e = ground (arith, last-append_other i vs w)

-- No number is above the last one.
pub count_above :
    (i k : ℕ) (vs : List AgentVersion) → last_version_no i vs < k → count (numbered i k) vs ≡ 0
unfolding last_version_no
count_above i k [] h = refl
count_above i k (v ∷ vs) h = ground (arith, count_above i k vs)

-- The versions of each agent are numbered from 1 to the last number, each number once.
abbrev pub AreNumbered : List AgentVersion → Type 0
AreNumbered vs = (i k : ℕ) → 1 ≤ k → k ≤ last_version_no i vs → count (numbered i k) vs ≡ 1

pub AreNumbered-append :
    (vs : List AgentVersion) (w : AgentVersion)
    → w.version_no ≡ last_version_no w.agent_id vs + 1
    → AreNumbered vs
    → AreNumbered (vs ++ w ∷ [])
AreNumbered-append vs w e h i k pos le = ground (
  arith,
  count-append (numbered i k) vs (w ∷ []),
  h i k,
  last-append i vs w,
  last-append_other i vs w,
  count_above i k vs,
)

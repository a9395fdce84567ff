-- ===== src/Alerts.antt =====
-- runtime/notify.py: an alert goes to the subscribed channels of the owning team, at most once for its key in a
-- window.
pub mod Window
pub mod Frame
use mathlib.Core.List.{reverse}
use sleeper_service.Base.{
  ℕ, ◌+◌, ◌*◌, String, Bool, true, false, Option, none, some, List, [], ◌∷◌, ◌++◌, ◌&&◌, ◌||◌, not,
  map,
}
use sleeper_service.Base.Tests.{ltb, leb, ◌==◌, if◌then◌else◌}
use sleeper_service.Base.Lists.{any, select, take, length, count}
use sleeper_service.Base.Table.{find}
use sleeper_service.Models.Agents.{Agent, agent_keyed}
use sleeper_service.Models.Jobs.{
  Job, JobStatus, succeeded, failed, dead_letter, timeout, iteration_limit,
}
use sleeper_service.State.{
  Db, AlertEvent, budget, callback_failed, error_rate, eval_regression, human_attention, AlertKey,
  agent_event, work_item, LiveKey, Alert, NotifChannel,
}

abbrev pub dedup_window_s : ℕ
dedup_window_s = 900

abbrev pub event_rank : AlertEvent → ℕ
event_rank budget = 0
event_rank AlertEvent.dead_letter = 1
event_rank callback_failed = 2
event_rank error_rate = 3
event_rank eval_regression = 4
event_rank human_attention = 5

abbrev pub same_event : AlertEvent → AlertEvent → Bool
same_event a b = event_rank a == event_rank b

abbrev pub same_key : AlertKey → AlertKey → Bool
same_key (agent_event i e) (agent_event j f) = i == j && same_event e f
same_key (agent_event i e) (work_item j) = false
same_key (work_item i) (agent_event j f) = false
same_key (work_item i) (work_item j) = i == j

-- A key that was set stays until its time is over.
abbrev pub is_live : ℕ → AlertKey → LiveKey → Bool
is_live clock key l = same_key l.key key && ltb clock l.expires

-- The channels of the team that subscribe to the event and whose URL still passes the outbound policy, which
-- `permitted` stands for.
abbrev pub destinations : (String → Bool) → Db → Agent → AlertEvent → List String
destinations permitted db agent event = select permitted (
    map (λ (c : NotifChannel). c.apprise_url)
      (select (λ (c : NotifChannel). c.team_id == agent.team_id && any (same_event event) c.events)
        db.channels))

unfoldable pub deliver : AlertKey → AlertEvent → List String → Db → Db
deliver key event [] db = db
deliver key event (u ∷ us) db = record db {
  sent = db.sent ++ record { key = key; event = event; urls = u ∷ us } ∷ [];
}

-- `redis.set(key, 1, nx=True, ex=DEDUP_WINDOW_S)` succeeded.
abbrev pub set_key : AlertKey → Db → Db
set_key key db = record db {
  live_keys = record { key = key; expires = db.clock + dedup_window_s } ∷ db.live_keys;
}

unfoldable pub notify_with : (String → Bool) → AlertKey → ℕ → AlertEvent → Db → Db
unfolding deliver
notify_with permitted key agent_id event db =
    if any (is_live db.clock key) db.live_keys then db else elim (find agent_id db.agents) [
      | none ↦ set_key key db
      | some agent ↦ deliver key event (destinations permitted db agent event) (set_key key db)
    ]

-- Without a `dedup_key` of its own an alert is one for its agent and event.
unfoldable pub notify : (String → Bool) → ℕ → AlertEvent → Db → Db
unfolding notify_with
notify permitted agent_id event = notify_with permitted (agent_event agent_id event) agent_id event

abbrev pub error_rate_window : ℕ
error_rate_window = 20

abbrev pub error_rate_min_sample : ℕ
error_rate_min_sample = 10

abbrev pub is_counted : JobStatus → Bool
is_counted succeeded = true
is_counted failed = true
is_counted dead_letter = true
is_counted timeout = true
is_counted iteration_limit = true
is_counted _ = false

abbrev pub is_failure : JobStatus → Bool
is_failure succeeded = false
is_failure _ = true

abbrev pub is_sampled : ℕ → Job → Bool
is_sampled agent_id j = j.agent_id == agent_id && (not j.is_eval && is_counted j.status)

-- The counted statuses of the agent's latest real runs, newest first.
abbrev pub recent_statuses : Db → ℕ → List JobStatus
recent_statuses db agent_id =
    take error_rate_window
      (map (λ (j : Job). j.status) (select (is_sampled agent_id) (reverse db.jobs)))

-- `failures / len(recent) >= 0.5`
abbrev pub is_elevated : List JobStatus → Bool
is_elevated recent =
    not (ltb (length recent) error_rate_min_sample)
    && leb (length recent) (2 * count is_failure recent)

unfoldable pub check_error_rate : (String → Bool) → ℕ → Db → Db
unfolding notify
check_error_rate permitted agent_id db =
    if is_elevated (recent_statuses db agent_id)
    then notify permitted agent_id error_rate db
    else db

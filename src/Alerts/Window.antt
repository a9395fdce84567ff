-- ===== src/Alerts/Window.antt =====
-- The window of an alert's key, and which jobs the error rate counts.
use mathlib.Core.List.{reverse, reverse-append}
use native.Mathlib.Nat.{add_assoc}
use sleeper_service.Base.{
  ℕ, ◌+◌, ◌<◌, ◌≡◌, refl, String, Bool, true, false, List, [], ◌∷◌, ◌++◌, arith, ◌∙◌, ◌⊎◌, ap, map,
}
use sleeper_service.Base.Lists.{any, sum_by, take, select}
use sleeper_service.Models.Jobs.{Job}
use sleeper_service.State.{Db, AlertEvent, AlertKey, agent_event, work_item, LiveKey}
use sleeper_service.Alerts.{
  dedup_window_s, same_key, is_live, notify_with, deliver, is_counted, recent_statuses, is_sampled,
  error_rate_window,
}

-- Attempts to send an alert, each so many seconds after the one before it.
pub attempts : (String → Bool) → AlertKey → ℕ → AlertEvent → List ℕ → Db → Db
attempts permitted key agent_id event [] db = db
attempts permitted key agent_id event (d ∷ ds) db =
    attempts permitted key agent_id event ds
      (notify_with permitted key agent_id event (record db { clock = db.clock + d }))

same_key_refl : (key : AlertKey) → same_key key key ≡ true
same_key_refl (agent_event i e) = ground arith
same_key_refl (work_item i) = ground arith

-- The key is set and has so long to live.
abbrev IsLive : AlertKey → ℕ → Db → Type 0
IsLive key left db = any (is_live (db.clock + left) key) db.live_keys ≡ true

module _ (permitted : String → Bool) (key : AlertKey) (agent_id : ℕ) (event : AlertEvent) where
  any_live_earlier :
      (clock d : ℕ) (ls : List LiveKey)
      → any (is_live (clock + d) key) ls ≡ true
      → any (is_live clock key) ls ≡ true
  any_live_earlier clock d [] h = cc
  any_live_earlier clock d (l ∷ ls) h = ground (arith, any_live_earlier clock d ls)

  notify_when_set :
      (db : Db) (left : ℕ) → IsLive key left db → notify_with permitted key agent_id event db ≡ db
  unfolding notify_with
  notify_when_set db left h = rw (any_live_earlier db.clock left db.live_keys h)

  attempts_when_set :
      (ds : List ℕ) (db : Db)
      → IsLive key (sum_by (λ d. d) ds) db
      → (attempts permitted key agent_id event ds db).sent ≡ db.sent
  unfolding attempts
  attempts_when_set [] db h = refl
  attempts_when_set (d ∷ ds) db h =
      let db' : Db = record db { clock = db.clock + d } in
      let h' : IsLive key (sum_by (λ d. d) ds) db' = rw add_assoc h in
      ap (λ s. (attempts permitted key agent_id event ds s).sent)
        (notify_when_set db' (sum_by (λ d. d) ds) h')
      ∙ attempts_when_set ds db' h'

  notify-IsLive :
      (db : Db) (left : ℕ)
      → left < dedup_window_s
      → any (is_live db.clock key) db.live_keys ≡ false
      → IsLive key left (notify_with permitted key agent_id event db)
  unfolding notify_with deliver
  notify-IsLive db left short h = ground (arith, same_key_refl key)

  -- Once an alert with some key was sent or tried, every further attempt with that key within the window of 900
  -- seconds sends nothing.
  pub attempts_once :
      (ds : List ℕ) (db : Db)
      → any (is_live db.clock key) db.live_keys ≡ false
      → sum_by (λ d. d) ds < dedup_window_s
      → (attempts permitted key agent_id event ds
          (notify_with permitted key agent_id event db)).sent
        ≡ (notify_with permitted key agent_id event db).sent
  attempts_once ds db fresh short =
      attempts_when_set ds (notify_with permitted key agent_id event db)
        (notify-IsLive db (sum_by (λ d. d) ds) short fresh)

select_skip {ℓ} :
    {A : Type ℓ} (p : A → Bool) (x : A) (xs : List A)
    → p x ≡ false
    → select p (x ∷ xs) ≡ select p xs
select_skip p x xs h = rw h

not_sampled :
    (agent_id : ℕ) (j : Job)
    → (j.is_eval ≡ true) ⊎ (is_counted j.status ≡ false)
    → is_sampled agent_id j ≡ false
not_sampled agent_id j h = ground arith

-- A job that is an eval run, or whose status the error rate does not count, leaves the sample of its agent, and of
-- every other, as it was.
pub recent_statuses_ignores :
    (db : Db) (j : Job) (agent_id : ℕ)
    → (j.is_eval ≡ true) ⊎ (is_counted j.status ≡ false)
    → recent_statuses (record db { jobs = db.jobs ++ j ∷ [] }) agent_id
      ≡ recent_statuses db agent_id
recent_statuses_ignores db j agent_id h = rw reverse-append (
    ap (λ (js : List Job). take error_rate_window (map (λ (j : Job). j.status) js))
      (select_skip (is_sampled agent_id) j (reverse db.jobs) (not_sampled agent_id j h)))

-- ===== src/Prompts/Live.antt =====
-- What saving a prompt does to the live prompts.
use sleeper_service.Base.{ℕ, suc, ◌≡◌, ◌≢◌, ◌⊎◌, String, Option, none, some, [], ◌∷◌, ◌++◌}
use sleeper_service.Models.Memory.{PromptVersion, prompt_keyed}
use sleeper_service.State.{Db}
use sleeper_service.Prompts.{
  Owner, newest_prompt, live_version_id, text_of, next_prompt, pinned_prompt,
}

-- Another owner: another tenant, another team, or the tenant itself beside its team.
abbrev pub IsOther : Owner → Owner → Type 0
IsOther o o' = (o'.tenant_id ≢ o.tenant_id) ⊎ (o'.team_id ≢ o.team_id)

-- What saving a text gives.
abbrev pub Saved : Db → Owner → String → Db × Option ℕ → Type 0
Saved db o content (db', r) =
    (text_of (newest_prompt o db'.prompt_versions) ≡ content)
    × ((o' : Owner)
        → IsOther o o'
        → newest_prompt o' db'.prompt_versions ≡ newest_prompt o' db.prompt_versions)
    × (((r ≡ none) × (db' ≡ db) × (text_of (newest_prompt o db.prompt_versions) ≡ content))
        ⊎ ((r ≡ some db.next_id)
            × (live_version_id o db' ≡ some db.next_id)
            × (pinned_prompt db' (live_version_id o db') ≡ content)))

module _ (db : Db) (o : Owner) (content : String) (user_id : Option ℕ) where
  abbrev row : PromptVersion
  row = next_prompt db o content user_id (newest_prompt o db.prompt_versions)

  abbrev grown : Db
  grown = record db { prompt_versions = db.prompt_versions ++ row ∷ []; next_id = suc db.next_id }

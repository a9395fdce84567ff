-- ===== src/Prompts.antt =====
-- runtime/system_prompts.py, and the live prompts of tenants and teams that db/models.py reads with their rows.
pub mod Live
mod Tests
use sleeper_service.Base.{
  ℕ, suc, ◌+◌, String, Bool, true, false, Option, none, some, List, [], ◌∷◌, ◌++◌, ◌&&◌,
}
use sleeper_service.Base.Tests.{ltb, ◌==◌, str_eq, if◌then◌else◌}
use sleeper_service.Base.Table.{find}
use sleeper_service.Models.Memory.{PromptVersion, prompt_keyed}
use sleeper_service.State.{Db}

-- `_scope`: a tenant, or a team of it.
pub record Owner : Type 0 where
  pub tenant_id : ℕ
  pub team_id : Option ℕ

abbrev pub same_team : Option ℕ → Option ℕ → Bool
same_team none none = true
same_team none (some b) = false
same_team (some a) none = false
same_team (some a) (some b) = a == b

-- `_where`
abbrev pub is_prompt_of : Owner → PromptVersion → Bool
is_prompt_of o v = v.tenant_id == o.tenant_id && same_team v.team_id o.team_id

abbrev pub newer_prompt : PromptVersion → Option PromptVersion → Option PromptVersion
newer_prompt v none = some v
newer_prompt v (some w) = if ltb v.version_no w.version_no then some w else some v

-- `order_by(version_no.desc()).limit(1)`
unfoldable pub newest_prompt : Owner → List PromptVersion → Option PromptVersion
newest_prompt o [] = none
newest_prompt o (v ∷ vs) =
    let rest = newest_prompt o vs in if is_prompt_of o v then newer_prompt v rest else rest

-- `Tenant.system_prompt_version_id` and `Team.system_prompt_version_id`
abbrev pub live_version_id : Owner → Db → Option ℕ
live_version_id o db = elim (newest_prompt o db.prompt_versions) [
  | none ↦ none
  | some v ↦ some v.id
]

abbrev pub text_of : Option PromptVersion → String
text_of none = ""
text_of (some v) = v.content

abbrev pub number_of : Option PromptVersion → ℕ
number_of none = 0
number_of (some v) = v.version_no

abbrev pub next_prompt : Db → Owner → String → Option ℕ → Option PromptVersion → PromptVersion
next_prompt db o content user_id latest = record {
  id = db.next_id;
  tenant_id = o.tenant_id;
  team_id = o.team_id;
  version_no = number_of latest + 1;
  content = content;
  created_by = user_id;
}

unfoldable pub save_system_prompt : Db → Owner → String → Option ℕ → Db × Option ℕ
save_system_prompt db o content user_id =
    let latest = newest_prompt o db.prompt_versions in
    if str_eq content (text_of latest) then (db, none) else (
      record db {
        prompt_versions = db.prompt_versions ++ next_prompt db o content user_id latest ∷ [];
        next_id = suc db.next_id;
      },
      some db.next_id,
    )

unfoldable pub pinned_prompt : Db → Option ℕ → String
pinned_prompt db none = ""
pinned_prompt db (some i) = text_of (find i db.prompt_versions)

-- ===== src/Agents.antt =====
-- api/v1/agents.py: agents, their options and their archiving. The description of an agent is not modelled, and the
-- listings only read.
pub mod Governed
mod Tests
use sleeper_service.Base.{
  ℕ, suc, String, Bool, true, false, Option, none, some, List, [], ◌∷◌, ◌++◌, ◌&&◌, ◌||◌, not,
}
use sleeper_service.Base.Tests.{◌==◌, str_eq, if◌then◌else◌}
use sleeper_service.Base.Lists.{any, select}
use sleeper_service.Base.Table.{find, find_by, modify, discard_by}
use sleeper_service.Base.Result.{
  Result, ok, err, ◌>>=◌, ◌>>◌, guard, or_raise, not_found, conflict, server_error,
}
use sleeper_service.Models.Json.{Fields, get}
use sleeper_service.Models.Values.{value_eq, or_null, truthy}
use sleeper_service.Models.Auth.{Role, team_keyed}
use sleeper_service.Models.Agents.{Agent, AgentVersion, VersionAlias, agent_keyed}
use sleeper_service.Models.Jobs.{Job}
use sleeper_service.Models.Memory.{MemoryVersion}
use sleeper_service.Models.Work.{WorkItem}
use sleeper_service.Models.Evals.{EvalCase, EvalRun}
use sleeper_service.Models.Events.{EventSource}
use sleeper_service.State.{Db}
use sleeper_service.Access.{UserPrincipal, role_in, is_some, require_role}

abbrev pub governed_option_keys : List String
governed_option_keys = "memory" ∷ "learning" ∷ "memory_approval" ∷ []

-- An agent that the principal sees.
unfoldable pub get_visible_agent : Db → UserPrincipal → ℕ → Result Agent
get_visible_agent db p agent_id = do
  agent ← or_raise (find agent_id db.agents) not_found
  guard (p.user.is_superuser || is_some (role_in agent.team_id p.roles)) not_found
  ok agent

-- An agent that the principal sees, and in whose team it has the role.
unfoldable pub managed_agent : Db → UserPrincipal → ℕ → Role → Result Agent
unfolding get_visible_agent
managed_agent db p agent_id role = do
  agent ← get_visible_agent db p agent_id
  require_role p agent.team_id role
  ok agent

-- An agent of the tenant with the name.
abbrev pub is_named : ℕ → String → Agent → Bool
is_named tenant_id name a = a.tenant_id == tenant_id && str_eq a.name name

-- `AgentCreate`
pub record AgentCreate : Type 0 where
  pub team_id : ℕ
  pub name : String
  pub spending_limit : Option ℕ
  pub options : Fields

abbrev pub sets : Fields → String → Bool
sets options k = truthy (or_null (get k options))

abbrev pub new_agent : Db → ℕ → AgentCreate → Agent
new_agent db tenant_id body = record {
  id = db.next_id;
  tenant_id = tenant_id;
  team_id = body.team_id;
  name = body.name;
  current_version_id = none;
  spending_limit = body.spending_limit;
  options = body.options;
  archived_at = none;
}

unfoldable pub create_agent : Db → UserPrincipal → AgentCreate → Result Db
create_agent db p body = do
  team ← or_raise (find body.team_id db.teams) not_found
  require_role p team.id Role.editor
  (if any (sets body.options) governed_option_keys
      then require_role p team.id Role.owner
      else ok tt)
  guard (not (is_some (find_by (is_named team.tenant_id body.name) db.agents))) conflict
  ok (record db {
    agents = db.agents ++ new_agent db team.tenant_id body ∷ [];
    next_id = suc db.next_id;
  })

-- `body.model_dump(exclude_unset=True)`: a field that is absent, or present with a value or a null.
pub record AgentUpdate : Type 0 where
  pub name : Option (Option String)
  pub spending_limit : Option (Option ℕ)
  pub options : Option (Option Fields)

-- `updates["options"] or {}`
abbrev pub or_empty : Option Fields → Fields
or_empty none = Fields.end
or_empty (some fs) = fs

abbrev pub differs : Fields → Fields → String → Bool
differs old new k = not (value_eq (or_null (get k old)) (or_null (get k new)))

unfoldable pub changes_governed : Agent → AgentUpdate → Bool
changes_governed agent u = elim u.options [
  | none ↦ false
  | some new ↦ any (differs agent.options (or_empty new)) governed_option_keys
]

-- The new name, where it differs from the old one, is that of an agent of the tenant.
unfoldable pub name_taken : Db → Agent → AgentUpdate → Bool
name_taken db agent u = elim u.name [
  | none ↦ false
  | some none ↦ false
  | some (some name) ↦
      not (str_eq name agent.name) && is_some (find_by (is_named agent.tenant_id name) db.agents)
]

-- A null in the column of the name, which is NOT NULL, so that the commit refuses it.
unfoldable pub nulls_column : AgentUpdate → Bool
nulls_column u = elim u.name [ some none ↦ true | _ ↦ false ]

abbrev pub set_to {ℓ} : {A : Type ℓ} → Option A → A → A
set_to none old = old
set_to (some new) old = new

abbrev pub new_options : Option (Option Fields) → Fields → Fields
new_options none old = old
new_options (some new) old = or_empty new

-- The loop of `setattr` over the updates. A null among them is stored for the options as a JSON null, which every
-- reader takes for the empty options (`agent.options or {}`), and so it is the empty options here.
abbrev pub apply_update : AgentUpdate → Agent → Agent
apply_update u a = record a {
  name = set_to (set_to u.name none) a.name;
  spending_limit = set_to u.spending_limit a.spending_limit;
  options = new_options u.options a.options;
}

-- `update_agent` from the checks that follow the editor's.
unfoldable pub updated : Db → UserPrincipal → ℕ → AgentUpdate → Agent → Result Db
unfolding changes_governed name_taken nulls_column
updated db p agent_id u agent = do
  (if changes_governed agent u then require_role p agent.team_id Role.owner else ok tt)
  guard (not (name_taken db agent u)) conflict
  guard (not (nulls_column u)) server_error
  ok (record db { agents = modify agent_id (apply_update u) db.agents })

unfoldable pub update_agent : Db → UserPrincipal → ℕ → AgentUpdate → Result Db
unfolding managed_agent updated
update_agent db p agent_id u = managed_agent db p agent_id Role.editor >>= updated db p agent_id u

-- `delete` with the foreign keys that cascade.
abbrev pub without_agent : ℕ → Db → Db
without_agent i db = record db {
  agents = discard_by (λ (a : Agent). a.id == i) db.agents;
  versions = select (λ (v : AgentVersion). not (v.agent_id == i)) db.versions;
  aliases = select (λ (r : VersionAlias). not (r.agent_id == i)) db.aliases;
  memory_versions = select (λ (v : MemoryVersion). not (v.agent_id == i)) db.memory_versions;
  work_items = select (λ (w : WorkItem). not (w.agent_id == i)) db.work_items;
  eval_cases = select (λ (c : EvalCase). not (c.agent_id == i)) db.eval_cases;
  eval_runs = select (λ (r : EvalRun). not (r.agent_id == i)) db.eval_runs;
}

-- The foreign key of an event source does not cascade, so the database refuses a delete below one.
unfoldable pub delete_agent : Db → UserPrincipal → ℕ → Result Db
unfolding managed_agent
delete_agent db p agent_id = do
  agent ← managed_agent db p agent_id Role.owner
  guard (not (any (λ (j : Job). j.agent_id == agent.id) db.jobs)) conflict
  guard (not (any (λ (s : EventSource). s.target_agent_id == agent.id) db.event_sources))
      server_error
  ok (without_agent agent.id db)

-- The time of the archiving is kept when the agent is archived again.
abbrev pub archive : Db → Agent → Agent
archive db a = if is_some a.archived_at then a else record a { archived_at = some db.now }

unfoldable pub archive_agent : Db → UserPrincipal → ℕ → Result Db
unfolding managed_agent
archive_agent db p agent_id = do
  managed_agent db p agent_id Role.owner
  ok (record db { agents = modify agent_id (archive db) db.agents })

unfoldable pub restore_agent : Db → UserPrincipal → ℕ → Result Db
unfolding managed_agent
restore_agent db p agent_id = do
  managed_agent db p agent_id Role.owner
  ok (record db {
    agents = modify agent_id (λ (a : Agent). record a { archived_at = none }) db.agents;
  })

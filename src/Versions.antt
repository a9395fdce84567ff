-- ===== src/Versions.antt =====
-- api/v1/versions.py: the immutable versions of an agent, and the pointers to a version, which are the current one
-- and the aliases.
pub mod Numbers
pub mod Aliases
pub mod Pointers
pub mod Refinement
pub mod Serve
mod Tests
use Prim.Native.Char.{code}
use sleeper_service.Base.{
  ℕ, suc, ◌+◌, String, Bool, true, false, Option, none, some, List, [], ◌∷◌, ◌++◌, ◌&&◌, ◌||◌, not,
}
use sleeper_service.Base.Tests.{ltb, ◌==◌, str_eq, if◌then◌else◌}
use sleeper_service.Base.Lists.{any, count, select}
use sleeper_service.Base.Table.{find, find_by, modify, modify_by, discard_by}
use sleeper_service.Base.Result.{
  Result, ok, err, ◌>>=◌, ◌>>◌, guard, or_raise, not_found, conflict, unprocessable,
}
use sleeper_service.Models.Json.{
  Value, Items, Fields, ℤ, get, boolean, number, text, array, object, nil, cons, end, field, null,
  pos, negsuc,
}
use sleeper_service.Models.Auth.{Role, Team, team_keyed}
use sleeper_service.Models.Agents.{
  Agent, AgentVersion, VersionAlias, Model, agent_keyed, version_keyed, model_keyed,
}
use sleeper_service.Models.Jobs.{Job}
use sleeper_service.State.{Db}
use sleeper_service.Access.{UserPrincipal, role_in, is_some, require_role}
use sleeper_service.Agents.{get_visible_agent, managed_agent}
use sleeper_service.Decisions.{Adapters, validate_decision_config}

-- `model_ref.partition("/")`, where there is a slash.
abbrev pub partition_slash : String → Option (String × String)
partition_slash String.[] = none
partition_slash (String.◌∷◌ c s) =
    let rest = partition_slash s in
    if code c == 47
    then some ("", s)
    else elim rest [ none ↦ none | some parts ↦ some (String.◌∷◌ c parts.0, parts.1) ]

abbrev pub named : String → String → Model → Bool
named provider name m = str_eq m.provider provider && str_eq m.name name

unfoldable pub resolve_model : List Model → String → Result Model
resolve_model models model_ref =
    elim (find_by (λ (m : Model). str_eq m.model_string model_ref) models) [
      | some m ↦ ok m
      | none ↦ elim (partition_slash model_ref) [
        | none ↦ err unprocessable
        | some parts ↦ or_raise (find_by (named parts.0 parts.1) models) unprocessable
      ]
    ]

-- `VersionCreate`
pub record VersionCreate : Type 0 where
  pub prompt : String
  pub model : String
  pub params : Fields
  pub max_iterations : ℕ
  pub timeout_s : ℕ
  pub tool_grants : List Value
  pub data_store_grants : List Value
  pub input_schema : Option Value
  pub output_schema : Option Value

-- `func.coalesce(func.max(AgentVersion.version_no), 0)`
unfoldable pub last_version_no : ℕ → List AgentVersion → ℕ
last_version_no agent_id [] = 0
last_version_no agent_id (v ∷ vs) =
    let rest = last_version_no agent_id vs in
    if v.agent_id == agent_id && ltb rest v.version_no then v.version_no else rest

abbrev pub new_agent_version : Db → ℕ → ℕ → VersionCreate → ℕ → AgentVersion
new_agent_version db agent_id model_id body user_id = record {
  id = db.next_id;
  agent_id = agent_id;
  version_no = last_version_no agent_id db.versions + 1;
  prompt = body.prompt;
  model_id = model_id;
  params = body.params;
  max_iterations = body.max_iterations;
  timeout_s = body.timeout_s;
  tool_grants = body.tool_grants;
  data_store_grants = body.data_store_grants;
  input_schema = body.input_schema;
  output_schema = body.output_schema;
  created_by = some user_id;
}

abbrev pub point_to : ℕ → Agent → Agent
point_to version_id a = record a { current_version_id = some version_id }

-- The row is added, and becomes the current version of an agent that has none.
unfoldable pub add_version : Agent → AgentVersion → Db → Db
add_version agent version db = record db {
  versions = db.versions ++ version ∷ [];
  next_id = suc db.next_id;
  agents =
      if is_some agent.current_version_id
      then db.agents
      else modify agent.id (point_to version.id) db.agents;
}

-- `create_version` from the checks that follow the editor's.
unfoldable pub created : Adapters → Db → ℕ → VersionCreate → ℕ → Agent → Result (Db × AgentVersion)
unfolding resolve_model
created a db agent_id body user_id agent = do
  model ← resolve_model db.models body.model
  guard
      (not (
        is_some (
          validate_decision_config a model.model_string body.params body.tool_grants
            body.data_store_grants agent.options body.output_schema)))
      unprocessable
  let version = new_agent_version db agent_id model.id body user_id
  ok (add_version agent version db, version)

unfoldable pub create_version :
    Adapters → Db → UserPrincipal → ℕ → VersionCreate → Result (Db × AgentVersion)
unfolding managed_agent created add_version
create_version a db p agent_id body =
    managed_agent db p agent_id Role.editor >>= created a db agent_id body p.user.id

abbrev pub numbered : ℕ → ℕ → AgentVersion → Bool
numbered agent_id version_no v = v.agent_id == agent_id && v.version_no == version_no

unfoldable pub get_version : Db → UserPrincipal → ℕ → ℕ → Result AgentVersion
unfolding get_visible_agent
get_version db p agent_id version_no = do
  get_visible_agent db p agent_id
  or_raise (find_by (numbered agent_id version_no) db.versions) not_found

unfoldable pub promote_version : Db → UserPrincipal → ℕ → ℕ → Result (Db × AgentVersion)
unfolding managed_agent
promote_version db p agent_id version_no = do
  agent ← managed_agent db p agent_id Role.owner
  version ← or_raise (find_by (numbered agent_id version_no) db.versions) not_found
  ok (record db { agents = modify agent.id (point_to version.id) db.agents }, version)

abbrev pub is_alias : ℕ → String → VersionAlias → Bool
is_alias agent_id alias r = r.agent_id == agent_id && str_eq r.alias alias

abbrev pub repoint : ℕ → VersionAlias → VersionAlias
repoint version_id r = record r { agent_version_id = version_id }

-- The row of the alias is added, or repointed.
unfoldable pub put_alias : ℕ → String → ℕ → List VersionAlias → List VersionAlias
put_alias agent_id alias version_id rows =
    if is_some (find_by (is_alias agent_id alias) rows)
    then modify_by (is_alias agent_id alias) (repoint version_id) rows
    else rows ++ record { agent_id = agent_id; alias = alias; agent_version_id = version_id } ∷ []

unfoldable pub set_alias : Db → UserPrincipal → ℕ → String → ℕ → Result (Db × ℕ)
unfolding managed_agent put_alias
set_alias db p agent_id alias version_no = do
  managed_agent db p agent_id Role.owner
  version ← or_raise (find_by (numbered agent_id version_no) db.versions) not_found
  ok (record db { aliases = put_alias agent_id alias version.id db.aliases }, version.id)

unfoldable pub delete_alias : Db → UserPrincipal → ℕ → String → Result Db
unfolding managed_agent
delete_alias db p agent_id alias = do
  managed_agent db p agent_id Role.owner
  or_raise (find_by (is_alias agent_id alias) db.aliases) not_found
  ok (record db { aliases = discard_by (is_alias agent_id alias) db.aliases })

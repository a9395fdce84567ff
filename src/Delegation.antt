-- ===== src/Delegation.antt =====
-- runtime/delegation.py: an agent calls another, whose job is a child of the calling one.
pub mod Ancestry
pub mod Calls
mod Tests
use sleeper_service.Base.{
  ℕ, zero, suc, ◌+◌, String, Bool, true, false, Option, none, some, List, [], ◌∷◌, ◌++◌, ◌&&◌, ◌||◌,
  not,
}
use sleeper_service.Base.Tests.{leb, ◌==◌, str_eq, if◌then◌else◌}
use sleeper_service.Base.Lists.{any, length, select}
use sleeper_service.Base.Table.{find, find_by}
use sleeper_service.Models.Json.{Value, text, object, Fields, end, field, get}
use sleeper_service.Models.Agents.{Agent, AgentVersion, version_keyed}
use sleeper_service.Models.Jobs.{Job, failed, queued, transient_provider, job_keyed}
use sleeper_service.State.{Db, Settings}
use sleeper_service.Services.{Services}
use sleeper_service.Access.{is_some}
use sleeper_service.Jobs.{add_job}
use sleeper_service.Runner.Finalize.{mark_job}
use sleeper_service.Runner.{Attempt, returned, raised_transient, execute_job}

pub data Scope : Type 0 where
  nobody own_team own_tenant : Scope

-- `delegation_scope`
abbrev pub delegation_scope : Agent → Scope
delegation_scope agent = elim (get "delegation" agent.options) [
  | none ↦ nobody
  | some v ↦ elim v [
    | text s ↦
        if str_eq s "team" then own_team else if str_eq s "tenant" then own_tenant else nobody
    | _ ↦ nobody
  ]
]

abbrev pub in_scope : Scope → Agent → Agent → Bool
in_scope nobody caller a = false
in_scope own_team caller a = a.team_id == caller.team_id
in_scope own_tenant caller a = true

-- `_permitted_agents`
abbrev pub is_permitted : Agent → Agent → Bool
is_permitted caller a =
    in_scope (delegation_scope caller) caller a
    && (a.tenant_id == caller.tenant_id && (not (a.id == caller.id) && not (is_some a.archived_at)))

abbrev pub has : ℕ → List ℕ → Bool
has i is = any (λ j. j == i) is

-- The loop of `_ancestry`, on fuel: none means that it ran out.
unfoldable pub climb_ancestry : List Job → ℕ → List ℕ → ℕ → List ℕ → Job → Option (ℕ × List ℕ)
climb_ancestry jobs zero visited depth agents current = none
climb_ancestry jobs (suc fuel) visited depth agents current = elim current.parent_job_id [
  | none ↦ some (depth, agents)
  | some p ↦ elim (has p visited) [
    | true ↦ some (depth, agents)
    | false ↦ elim (find p jobs) [
      | none ↦ some (depth, agents)
      | some parent ↦
          climb_ancestry jobs fuel (parent.id ∷ visited) (suc depth) (parent.agent_id ∷ agents)
            parent
    ]
  ]
]

-- Every round visits a job that was not visited, so one more round than there are jobs is enough.
unfoldable pub ancestry : List Job → Job → Option (ℕ × List ℕ)
ancestry jobs job = climb_ancestry jobs (suc (length jobs)) (job.id ∷ []) 0 (job.agent_id ∷ []) job

pub data Refusal : Type 0 where
  not_in_scope no_version depth_limit cycle no_row : Refusal

pub data Call : Type 0 where
  refused : Refusal → Call
  made : Db → ℕ → Call

abbrev pub child_job : Db → Agent → AgentVersion → Job → String → Job
child_job db target version job prompt = record {
  id = db.next_id;
  agent_id = target.id;
  agent_version_id = version.id;
  memory_version_id = none;
  tenant_prompt_version_id = none;
  team_prompt_version_id = none;
  parent_job_id = some job.id;
  status = queued;
  payload = object (field "prompt" (text prompt) end);
  output = none;
  error = none;
  tokens_in = 0;
  tokens_out = 0;
  cost = 0;
  callback_url = none;
  user_ctx = job.user_ctx;
  auth_ctx = job.auth_ctx;
  idempotency_key = none;
  is_eval = false;
  created_at = db.now;
  started_at = none;
  finished_at = none;
}

-- The guards on the depth and on a cycle, and the child's row.
unfoldable pub add_child : Settings → Db → Agent → AgentVersion → Job → String → ℕ × List ℕ → Call
add_child settings db target version job prompt (depth, agents) =
    if leb settings.max_delegation_depth (depth + 1)
    then refused depth_limit
    else if has target.id agents
    then refused cycle
    else made (add_job (child_job db target version job prompt) db) db.next_id

-- `call_agent` up to the commit of the child; the foreign keys promise the rows of `db.get`.
unfoldable pub call_agent : Settings → Db → Agent → ℕ → String → String → Call
unfolding add_child ancestry
call_agent settings db caller job_id agent_name prompt =
    elim (find_by (λ (a : Agent). is_permitted caller a && str_eq a.name agent_name) db.agents) [
      | none ↦ refused not_in_scope
      | some target ↦ elim target.current_version_id [
        | none ↦ refused no_version
        | some version_id ↦ elim (find job_id db.jobs) [
          | none ↦ refused no_row
          | some job ↦ elim (find version_id db.versions) [
            | none ↦ refused no_row
            | some version ↦ elim (ancestry db.jobs job) [
              | none ↦ refused no_row
              | some above ↦ add_child settings db target version job prompt above
            ]
          ]
        ]
      ]
    ]

-- The inline run of the child: without tries of its own, a transient error fails it.
unfoldable pub run_child : Services → ℕ → Db → Db
run_child s child_id db =
    let (d, attempt) = execute_job s false child_id db in
    elim attempt [
      | raised_transient message ↦ mark_job s child_id failed (transient_provider message) d
      | _ ↦ d
    ]

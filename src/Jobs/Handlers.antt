-- ===== src/Jobs/Handlers.antt =====
-- The handlers `submit_job` and `retry_job` of api/v1/jobs.py.
use sleeper_service.Base.{
  ℕ, String, Bool, true, false, Option, none, some, List, [], ◌∷◌, ◌&&◌, ◌||◌, not,
}
use sleeper_service.Base.Tests.{◌==◌, str_eq, if◌then◌else◌}
use sleeper_service.Base.Table.{find, find_by, modify}
use sleeper_service.Base.Result.{
  Result, ok, ◌>>=◌, ◌>>◌, guard, or_raise, not_found, forbidden, conflict, unprocessable,
}
use sleeper_service.Models.Json.{Value}
use sleeper_service.Models.Auth.{KeyScope, Tenant, tenant_keyed}
use sleeper_service.Models.Agents.{Agent, AgentVersion, VersionAlias, version_keyed}
use sleeper_service.Models.Jobs.{
  Job, JobStatus, queued, failed, timeout, dead_letter, budget_exceeded, transient_provider,
  retried, job_keyed, file_keyed,
}
use sleeper_service.State.{Db, run_job, deliver_callback, add_event, enqueue}
use sleeper_service.Services.{Services}
use sleeper_service.Access.{Principal, user, invoke, is_some, get_agent_for}
use sleeper_service.Runner.Finalize.{mark_job}
use sleeper_service.Runner.{Attempt, returned, raised_transient, execute_job}
use sleeper_service.Models.Json.{
  text, number, array, Items, nil, cons, object, Fields, end, field, pos, null,
}
use sleeper_service.Models.Auth.{Role}
use sleeper_service.Access.{role_in}
use sleeper_service.Jobs.{Order, create_job}

-- The body of a submission. Its version is asked for by an id, by a number, by an alias, or is the current one.
pub record Submission : Type 0 where
  pub prompt : String
  pub agent_version_id : Option ℕ
  pub version_no : Option ℕ
  pub alias : Option String
  pub links : List String
  pub files : List ℕ
  pub callback_url : Option String
  pub user_ctx : Option Value
  pub idempotency_key : Option String

resolve_alias : Db → Agent → String → Result AgentVersion
resolve_alias db agent alias = do
  row ←
      or_raise
        (find_by (λ (a : VersionAlias). a.agent_id == agent.id && str_eq a.alias alias) db.aliases)
        unprocessable
  or_raise (find row.agent_version_id db.versions) not_found

unfoldable pub resolve_current : Db → Agent → Result AgentVersion
resolve_current db agent = do
  i ← or_raise agent.current_version_id conflict
  or_raise (find i db.versions) not_found

resolve_id : Db → Agent → ℕ → Result AgentVersion
resolve_id db agent i = do
  version ← or_raise (find i db.versions) unprocessable
  guard (version.agent_id == agent.id) unprocessable
  ok version

-- The foreign keys of aliases and of agents promise the row of `db.get`.
unfoldable pub resolve_version : Db → Agent → Submission → Result AgentVersion
unfolding resolve_id resolve_alias resolve_current
resolve_version db agent sub = elim sub.agent_version_id [
  | some i ↦ resolve_id db agent i
  | none ↦ elim sub.version_no [
    | some k ↦
        or_raise
          (find_by (λ (v : AgentVersion). v.agent_id == agent.id && v.version_no == k) db.versions)
          unprocessable
    | none ↦ elim sub.alias [ some a ↦ resolve_alias db agent a | none ↦ resolve_current db agent ]
  ]
]

-- `isinstance(principal, InvokePrincipal) and principal.scope != KeyScope.TENANT`
abbrev pub is_below_tenant : Principal → Bool
is_below_tenant (user p) = false
is_below_tenant (invoke p) = elim p.scope [ KeyScope.tenant ↦ false | _ ↦ true ]

-- The loop over the files of the context.
unfoldable pub check_files : Db → ℕ → List ℕ → Result (Unit {0})
check_files db tenant_id [] = ok tt
check_files db tenant_id (i ∷ is) = do
  file ← or_raise (find i db.files) unprocessable
  guard (file.tenant_id == tenant_id) unprocessable
  check_files db tenant_id is

unfoldable pub allow_files : Db → Principal → Agent → List ℕ → Result (Unit {0})
unfolding check_files
allow_files db p agent [] = ok tt
allow_files db p agent (i ∷ is) = do
  guard (not (is_below_tenant p)) forbidden
  check_files db agent.tenant_id (i ∷ is)

abbrev pub role_name : Option Role → Value
role_name none = null
role_name (some Role.viewer) = text "viewer"
role_name (some Role.editor) = text "editor"
role_name (some Role.owner) = text "owner"

abbrev pub scope_name : KeyScope → Value
scope_name KeyScope.tenant = text "tenant"
scope_name KeyScope.team = text "team"
scope_name KeyScope.agent = text "agent"

abbrev pub id_value : ℕ → Value
id_value i = number (pos i)

abbrev pub place_of : Agent → Fields
place_of agent =
    field "tenant_id" (id_value agent.tenant_id)
      (field "team_id" (id_value agent.team_id) (field "agent_id" (id_value agent.id) end))

-- Who has submitted the job.
abbrev pub auth_ctx_of : Principal → Agent → Value
auth_ctx_of (user p) agent = object (
    field "type" (text "user") (
      field "user_id" (id_value p.user.id)
        (field "team_role" (role_name (role_in agent.team_id p.roles)) (place_of agent))))
auth_ctx_of (invoke p) agent = object (
    field "type" (text "invoke_key") (
      field "key_id" (id_value p.key.id) (
        field "scope" (scope_name p.scope)
          (field "scope_id" (id_value p.scope_id) (place_of agent)))))

-- The outbound policy on the links of the context and on a callback's URL.
pub record Policy : Type 0 where
  pub refuses_links : Tenant → List String → Bool
  pub refuses_callback : Tenant → String → Bool

abbrev pub refuses_url : Policy → Tenant → Option String → Bool
refuses_url policy tenant none = false
refuses_url policy tenant (some url) = not (str_eq url "") && policy.refuses_callback tenant url

abbrev pub refuses_any_link : Policy → Tenant → List String → Bool
refuses_any_link policy tenant [] = false
refuses_any_link policy tenant (l ∷ ls) = policy.refuses_links tenant (l ∷ ls)

abbrev pub id_values : List ℕ → Items
id_values [] = nil
id_values (i ∷ is) = cons (id_value i) (id_values is)

abbrev pub text_values : List String → Items
text_values [] = nil
text_values (t ∷ ts) = cons (text t) (text_values ts)

-- `body.context.model_dump(mode="json")`, with the rest of the call's arguments.
abbrev pub order_of : Submission → Principal → Agent → Order
order_of sub p agent = record {
  context = object (
      field "prompt" (text sub.prompt) (
        field "files" (array (id_values sub.files))
          (field "links" (array (text_values sub.links)) end)));
  callback_url = sub.callback_url;
  user_ctx = sub.user_ctx;
  auth_ctx = some (auth_ctx_of p agent);
  idempotency_key = sub.idempotency_key;
}

abbrev pub is_refused : Option Job → Bool
is_refused none = false
is_refused (some j) = elim j.status [ budget_exceeded ↦ true | _ ↦ false ]

abbrev pub has_url : Option String → Bool
has_url none = false
has_url (some url) = not (str_eq url "")

unfoldable pub queue_callback : ℕ → Db → Db
queue_callback job_id db = elim (find job_id db.jobs) [
  | none ↦ db
  | some job ↦ if has_url job.callback_url then enqueue (deliver_callback job_id) db else db
]

-- What follows the inline run; an exception other than the transient one leaves the handler.
pub after_inline : Services → ℕ → Db × Attempt → Db
unfolding queue_callback
after_inline s job_id (db, returned) = queue_callback job_id db
after_inline s job_id (db, raised_transient message) =
    queue_callback job_id (mark_job s job_id failed (transient_provider message) db)
after_inline s job_id (db, _) = db

unfoldable pub submit_job :
    Services → (Db → Db) → Policy → Db → Principal → ℕ → Submission → Bool → Result (Db × ℕ)
unfolding resolve_version allow_files after_inline
submit_job s race policy db p agent_id sub sync = do
  agent ← get_agent_for db.agents p agent_id true
  version ← resolve_version db agent sub
  tenant ← or_raise (find agent.tenant_id db.tenants) not_found
  guard (not (refuses_any_link policy tenant sub.links)) unprocessable
  guard (not (refuses_url policy tenant sub.callback_url)) unprocessable
  allow_files db p agent sub.files
  made ← create_job s race agent version (order_of sub p agent) sync db
  ok (
    (if made.2 || (is_refused (find made.1 made.0.jobs) || not sync)
        then made.0
        else after_inline s made.1 (execute_job s true made.1 made.0)),
    made.1,
  )

abbrev pub is_retryable : JobStatus → Bool
is_retryable dead_letter = true
is_retryable failed = true
is_retryable timeout = true
is_retryable _ = false

abbrev pub reset : Job → Job
reset job = record job {
  status = queued;
  output = none;
  error = none;
  started_at = none;
  finished_at = none;
}

unfoldable pub retry_job : Db → Principal → ℕ → Result Db
retry_job db p job_id = do
  job ← or_raise (find job_id db.jobs) not_found
  get_agent_for db.agents p job.agent_id false
  agent ← get_agent_for db.agents p job.agent_id true
  guard (not (is_some agent.archived_at)) conflict
  guard (is_retryable job.status) conflict
  ok (
      enqueue (run_job job_id)
        (add_event job_id retried (record db { jobs = modify job_id reset db.jobs })))

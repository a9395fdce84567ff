-- ===== src/Events.antt =====
-- api/v1/events.py: the sources of events, and the ingress that turns an event into a job. The scan of a template for
-- its variables, the printing of values and pydantic's validation of a context are parameters.
pub mod Accepted
mod Tests
use sleeper_service.Base.{
  ℕ, suc, String, Bool, true, false, Option, none, some, List, [], ◌∷◌, ◌++◌, ◌&&◌, not,
}
use sleeper_service.Base.Tests.{◌==◌, str_eq, if◌then◌else◌}
use sleeper_service.Base.Table.{find, find_by, discard_by}
use sleeper_service.Base.Result.{
  Result, ok, ◌>>=◌, ◌>>◌, guard, or_raise, not_found, conflict, unprocessable, unauthorized,
  server_error,
}
use sleeper_service.Models.Json.{
  Value, null, text, array, object, number, boolean, Items, nil, cons, Fields, end, field,
}
use sleeper_service.Models.Auth.{Role, Tenant, tenant_keyed}
use sleeper_service.Models.Agents.{Agent, AgentVersion, agent_keyed}
use sleeper_service.Models.Events.{EventSource, source_keyed}
use sleeper_service.State.{Db}
use sleeper_service.Services.{Services}
use sleeper_service.Access.{UserPrincipal, is_some, require_role, require_tenant_admin}
use sleeper_service.Evals.Checks.{dig}
use sleeper_service.Jobs.{Order, create_job}
use sleeper_service.Jobs.Handlers.{
  Policy, refuses_any_link, resolve_current, check_files, id_value, id_values, text_values,
}

-- `JobContext`
pub record JobContext : Type 0 where
  pub prompt : String
  pub files : List ℕ
  pub links : List String

-- `_TEMPLATE_VAR.sub`, which puts the answer of a function in the place of every variable; `str`, `json.dumps`, the
-- text of an id, the hash of a secret, and the validation of a context.
pub record Formats : Type 0 where
  pub sub : (String → String) → String → String
  pub str : Value → String
  pub dumps : Fields → String
  pub id_text : ℕ → String
  pub hash_key : String → ℕ
  pub validate : Fields → Option JobContext

-- The value at a path of the body; None stands for a path that leads nowhere.
abbrev pub dig_body : Fields → String → Value
dig_body body path = dig (object body) path

-- `str` of a value that is a text is the text.
abbrev pub found_text : Formats → Value → String
found_text f null = ""
found_text f (text s) = s
found_text f v = f.str v

abbrev pub substitute : Formats → Fields → String → String
substitute f body path =
    if str_eq path "body" then f.dumps body else found_text f (dig_body body path)

unfoldable mutual
  pub render_value : Formats → Fields → Value → Value
  render_value f body (text s) = text (f.sub (substitute f body) s)
  render_value f body (object fs) = object (render_fields f body fs)
  render_value f body (array vs) = array (render_items f body vs)
  render_value f body v = v

  pub render_items : Formats → Fields → Items → Items
  render_items f body nil = nil
  render_items f body (cons v vs) = cons (render_value f body v) (render_items f body vs)

  pub render_fields : Formats → Fields → Fields → Fields
  render_fields f body end = end
  render_fields f body (field k v fs) = field k (render_value f body v) (render_fields f body fs)

unfoldable pub render_template : Formats → Fields → Fields → Fields
unfolding render_fields
render_template f template body = render_fields f body template

-- `EventSourceCreate`
pub record EventSourceCreate : Type 0 where
  pub name : String
  pub target_agent_id : ℕ
  pub payload_template : Fields
  pub dedup_key_path : Option String

abbrev pub new_source : Db → ℕ → EventSourceCreate → ℕ → EventSource
new_source db tenant_id body secret_hash = record {
  id = db.next_id;
  tenant_id = tenant_id;
  name = body.name;
  target_agent_id = body.target_agent_id;
  payload_template = body.payload_template;
  secret_hash = secret_hash;
  dedup_key_path = body.dedup_key_path;
}

abbrev pub source_named : ℕ → String → EventSource → Bool
source_named tenant_id name s = s.tenant_id == tenant_id && str_eq s.name name

-- `secret_hash` is the hash of the secret that is drawn.
unfoldable pub create_event_source : Db → UserPrincipal → ℕ → EventSourceCreate → ℕ → Result Db
create_event_source db p tenant_id body secret_hash = do
  or_raise (find tenant_id db.tenants) not_found
  agent ← or_raise (find body.target_agent_id db.agents) unprocessable
  guard (agent.tenant_id == tenant_id) unprocessable
  require_role p agent.team_id Role.owner
  guard (not (is_some (find_by (source_named tenant_id body.name) db.event_sources))) conflict
  ok (record db {
    event_sources = db.event_sources ++ new_source db tenant_id body secret_hash ∷ [];
    next_id = suc db.next_id;
  })

unfoldable pub delete_event_source : Db → UserPrincipal → ℕ → ℕ → Result Db
delete_event_source db p tenant_id source_id = do
  source ← or_raise (find source_id db.event_sources) not_found
  guard (source.tenant_id == tenant_id) not_found
  elim (find source.target_agent_id db.agents) [
    | some agent ↦ require_role p agent.team_id Role.owner
    | none ↦ require_tenant_admin db.teams p tenant_id
  ]
  ok (record db {
    event_sources = discard_by (λ (s : EventSource). s.id == source_id) db.event_sources;
  })

-- The source, where the request has its secret.
unfoldable pub authenticate : Formats → Db → ℕ → String → Result EventSource
authenticate f db source_id secret = do
  source ← or_raise (find source_id db.event_sources) unauthorized
  guard (not (str_eq secret "") && f.hash_key secret == source.secret_hash) unauthorized
  ok source

abbrev pub append : String → String → String
append String.[] t = t
append (String.◌∷◌ c s) t = String.◌∷◌ c (append s t)

-- `f"evt:{source.id}:{dedup_value}"`
abbrev pub event_key : Formats → ℕ → Value → Option String
event_key f source_id null = none
event_key f source_id v =
    some (append "evt:" (append (f.id_text source_id) (append ":" (found_text f v))))

unfoldable pub dedup_key : Formats → EventSource → Fields → Option String
dedup_key f source body = elim source.dedup_key_path [
  | none ↦ none
  | some path ↦ if str_eq path "" then none else event_key f source.id (dig_body body path)
]

-- The arguments of `create_job`.
abbrev pub event_order : Formats → EventSource → Fields → JobContext → Order
event_order f source body context = record {
  context = object (
      field "prompt" (text context.prompt) (
        field "files" (array (id_values context.files))
          (field "links" (array (text_values context.links)) end)));
  callback_url = none;
  user_ctx = none;
  auth_ctx = some (
      object (
        field "type" (text "event_source") (
          field "source_id" (id_value source.id)
            (field "tenant_id" (id_value source.tenant_id) end))));
  idempotency_key = dedup_key f source body;
}

-- The links of the context against the tenant's allowlist; its row is promised by a foreign key.
unfoldable pub check_event_links : Policy → Db → ℕ → List String → Result (Unit {0})
check_event_links policy db tenant_id [] = ok tt
check_event_links policy db tenant_id (l ∷ ls) = do
  tenant ← or_raise (find tenant_id db.tenants) server_error
  guard (not (refuses_any_link policy tenant (l ∷ ls))) unprocessable

-- `ingest_event` from the rendering on.
unfoldable pub ingest :
    Services
    → (Db → Db)
    → Policy
    → Formats
    → Db
    → EventSource
    → Agent
    → Fields
    → AgentVersion
    → Result (Db × ℕ × Bool)
ingest s race policy f db source agent body version = do
  context ← or_raise (f.validate (render_template f source.payload_template body)) unprocessable
  check_event_links policy db agent.tenant_id context.links
  check_files db agent.tenant_id context.files
  create_job s race agent version (event_order f source body context) false db

-- The row of the agent is promised by a foreign key. The answer is the job's id and whether it was there.
unfoldable pub ingest_event :
    Services → (Db → Db) → Policy → Formats → Db → ℕ → Fields → String → Result (Db × ℕ × Bool)
ingest_event s race policy f db source_id body secret = do
  source ← authenticate f db source_id secret
  agent ← or_raise (find source.target_agent_id db.agents) server_error
  version ← resolve_current db agent
  ingest s race policy f db source agent body version

-- ===== src/Samples.antt =====
-- A small deployment for the tests: one tenant with a team, an agent that has a limit and a memory, and its rows.
use sleeper_service.Base.{ℕ, Bool, true, false, none, some, [], ◌∷◌}
use sleeper_service.Base.Text.{codes}
use sleeper_service.Models.Json.{text, boolean, object, end, field}
use sleeper_service.Models.Time.{DateTime}
use sleeper_service.Models.Auth.{
  Role, KeyScope, Tenant, Team, User, TeamMember, ApiKey, user_key, invoke_key,
}
use sleeper_service.Models.Agents.{Agent, AgentVersion, Model}
use sleeper_service.Models.Jobs.{Job, JobStatus, queued}
use sleeper_service.Models.Memory.{MemoryVersion, active, pending}
use sleeper_service.Models.Work.{WorkItem, memory_approval, unresolved}
use sleeper_service.State.{Db, Settings, AlertEvent, NotifChannel}
use sleeper_service.Hooks.{Engine, missed, Rule}
use sleeper_service.Services.{Services, Trace, answered}
use sleeper_service.Access.{UserPrincipal, InvokePrincipal}

abbrev pub noon : DateTime
noon = record {
  year = 2026;
  month = 3;
  day = 14;
  hour = 12;
  minute = 0;
  second = 0;
  microsecond = 0;
}

abbrev pub acme : Tenant
acme = record { id = 1; name = "Acme"; settings = end }

abbrev pub support : Team
support = record { id = 2; tenant_id = 1; name = "Support"; is_org_team = true }

abbrev pub ada : User
ada = record { id = 3; email = "ada@example.com"; is_superuser = false }

abbrev pub ada_owns : TeamMember
ada_owns = record { user_id = 3; team_id = 2; role = Role.owner }

abbrev pub ada_principal : UserPrincipal
ada_principal = record { user = ada; roles = (2, Role.owner) ∷ [] }

abbrev pub ada_key : ApiKey
ada_key = record {
  id = 20;
  shape = user_key 3;
  key_hash = 77;
  rate_limit = some 2;
  revoked_at = none;
}

abbrev pub tenant_key : ApiKey
tenant_key = record {
  id = 21;
  shape = invoke_key KeyScope.tenant 1;
  key_hash = 78;
  rate_limit = none;
  revoked_at = none;
}

abbrev pub tenant_principal : InvokePrincipal
tenant_principal = record { key = tenant_key; scope = KeyScope.tenant; scope_id = 1 }

abbrev pub helper : Agent
helper = record {
  id = 4;
  tenant_id = 1;
  team_id = 2;
  name = "helper";
  current_version_id = some 5;
  spending_limit = some 1000;
  options = field "memory" (boolean true) end;
  archived_at = none;
}

abbrev pub helper_v1 : AgentVersion
helper_v1 = record {
  id = 5;
  agent_id = 4;
  version_no = 1;
  prompt = "Help.";
  model_id = 6;
  params = end;
  max_iterations = 5;
  timeout_s = 60;
  tool_grants = [];
  data_store_grants = [];
  input_schema = none;
  output_schema = none;
  created_by = some 3;
}

abbrev pub model : Model
model = record { id = 6; provider = "openai"; name = "small"; model_string = "openai:small" }

abbrev pub waiting : Job
waiting = record {
  id = 7;
  agent_id = 4;
  agent_version_id = 5;
  memory_version_id = none;
  tenant_prompt_version_id = none;
  team_prompt_version_id = none;
  parent_job_id = none;
  status = queued;
  payload = object (field "prompt" (text "Hello") end);
  output = none;
  error = none;
  tokens_in = 0;
  tokens_out = 0;
  cost = 0;
  callback_url = none;
  user_ctx = none;
  auth_ctx = none;
  idempotency_key = none;
  is_eval = false;
  created_at = noon;
  started_at = none;
  finished_at = none;
}

-- A job of the month that spent the whole limit.
abbrev pub dear : Job
dear = record waiting { id = 8; status = JobStatus.succeeded; cost = 1000 }

abbrev pub note : MemoryVersion
note = record {
  id = 9;
  agent_id = 4;
  version_no = 1;
  content = codes "be brief";
  status = active;
  source_job_id = none;
}

abbrev pub proposed : MemoryVersion
proposed = record note { id = 10; version_no = 2; content = codes "be kind"; status = pending }

abbrev pub approval : WorkItem
approval = record {
  id = 11;
  tenant_id = 1;
  team_id = 2;
  agent_id = 4;
  job_id = none;
  memory_version_id = some 10;
  kind = memory_approval;
  status = unresolved;
  resolution = none;
  response = none;
  resolved_by_user_id = none;
  resolved_at = none;
}

abbrev pub channel : NotifChannel
channel = record {
  team_id = 2;
  apprise_url = "json://alerts";
  events = AlertEvent.budget ∷ AlertEvent.human_attention ∷ [];
}

abbrev pub db : Db
db = record {
  tenants = acme ∷ [];
  teams = support ∷ [];
  agents = helper ∷ [];
  versions = helper_v1 ∷ [];
  aliases = [];
  models = model ∷ [];
  files = [];
  jobs = waiting ∷ [];
  events = [];
  memory_versions = note ∷ proposed ∷ [];
  prompt_versions = [];
  work_items = approval ∷ [];
  feedback = [];
  eval_cases = [];
  eval_runs = [];
  channels = channel ∷ [];
  event_sources = [];
  provider_creds = [];
  next_id = 100;
  now = noon;
  clock = 0;
  queue = [];
  live_keys = [];
  sent = [];
}

abbrev pub settings : Settings
settings = record {
  job_max_tries = 3;
  callback_max_tries = 5;
  sync_job_timeout_s = 30;
  max_delegation_depth = 3;
  memory_max_chars = 100;
}

-- An engine whose every search misses after one tick.
abbrev pub lenient : Engine
lenient = record { compile = λ s. none; search = λ p t left. missed 1 }

abbrev pub override_rule : Rule
override_rule = record { name = "ignore-previous"; pattern = 0 }

-- A run of one node that answers after two seconds.
abbrev pub answering : Bool → ℕ → Db → Db × Trace
answering prompted job_id d = (
  d,
  record {
    nodes = record { elapsed = 1; usage = record { input_tokens = 10; output_tokens = 5 } } ∷ [];
    ended_at = 2;
    ending = answered (text "Hi") (record { input_tokens = 10; output_tokens = 5 });
    tool_calls = [];
    escalation_ids = [];
    memory_proposals = codes "be polite" ∷ [];
    decided_cost = none;
    has_messages = true;
    lookup_total = none;
    lookup_missing = 0;
  },
)

abbrev pub services : Services
services = record {
  settings = settings;
  permitted = λ u. true;
  engine = lenient;
  builtin_rules = override_rule ∷ [];
  screen_timeout = 50;
  classify = λ m ts. none;
  subn = λ p s. (s, 0);
  fold_model = λ m t n. none;
  price = λ u m. some 15;
  schema_error = λ v w. none;
  config_error = λ m v a. none;
  grant_error = λ d a v j. none;
  untrusted = λ d t j. codes "Hello" ∷ [];
  run = answering;
}

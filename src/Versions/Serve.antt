-- ===== src/Versions/Serve.antt =====
-- Any sequence of requests on agents, versions and aliases.
use mathlib.Core.Path.{subst}
use sleeper_service.Base.{
  ℕ, suc, ◌<◌, ◌++◌, ◌∙◌, inl, inr, ◌≡◌, String, List, [], ◌∷◌, arith, refl, sym, ap, none,
}
use sleeper_service.Base.Tests.{◌==◌, ==_iff, Bool-cases}
use sleeper_service.Base.Lists.{All-append, All-map}
use sleeper_service.Base.Table.{find, find_by, modify, discard_by, All-discard_by, find_by_passes}
use sleeper_service.Base.Result.{
  Result, ok, err, bind_ok, or_raise, or_raise_ok, after_request, after_request-keeps, state_of,
  not_found,
}
use sleeper_service.Models.Auth.{Role, team_keyed}
use sleeper_service.Models.Agents.{Agent, AgentVersion, agent_keyed, model_keyed}
use sleeper_service.State.{Db}
use sleeper_service.Access.{UserPrincipal, is_some}
use sleeper_service.Decisions.{Adapters}
use sleeper_service.Agents.{
  AgentCreate, AgentUpdate, create_agent, new_agent, update_agent, apply_update, archive,
  archive_agent, restore_agent, updated, managed_agent,
}
use sleeper_service.Agents.Governed.{managed_agent_ok}
use sleeper_service.Versions.{
  VersionCreate, create_version, created, add_version, new_agent_version, point_to, numbered,
  promote_version, put_alias, set_alias, is_alias, resolve_model, delete_alias,
}
use sleeper_service.Versions.Pointers.{
  IsConsistent, PointsHome, IsVersionOf, IsNoneOrVersionOf, IsVersionOf-found,
  IsConsistent-add_version, IsConsistent-agents, IsConsistent-aliases, current-modify,
  current-point_to, LeadsHome, LeadsHome-put_alias,
}

pub data Request : Type 0 where
  submit_version : ℕ → VersionCreate → Request
  promote : ℕ → ℕ → Request
  put : ℕ → String → ℕ → Request
  remove : ℕ → String → Request
  create : AgentCreate → Request
  update : ℕ → AgentUpdate → Request
  retire restore : ℕ → Request

pub act : Adapters → Db → UserPrincipal × Request → Result Db
act a db (p, submit_version agent_id body) = state_of (create_version a db p agent_id body)
act a db (p, promote agent_id version_no) = state_of (promote_version db p agent_id version_no)
act a db (p, put agent_id alias version_no) = state_of (set_alias db p agent_id alias version_no)
act a db (p, remove agent_id alias) = delete_alias db p agent_id alias
act a db (p, create body) = create_agent db p body
act a db (p, update agent_id u) = update_agent db p agent_id u
act a db (p, retire agent_id) = archive_agent db p agent_id
act a db (p, restore agent_id) = restore_agent db p agent_id

pub serve : Adapters → Db → List (UserPrincipal × Request) → Db
serve a db [] = db
serve a db (r ∷ rs) = serve a (after_request db (act a db r)) rs

state_of_ok {ℓ κ} :
    {A : Type ℓ} {B : Type κ} (r : Result (A × B)) {x : A}
    → state_of r ≡ ok x
    → (y : B) × (r ≡ ok (x, y))
state_of_ok (ok (x', y)) h = (y, ground arith)
state_of_ok (err e) h = absurd (cc)

-- What `create_version` adds.
pub created_ok :
    (a : Adapters) (db : Db) (agent_id : ℕ) (body : VersionCreate) (user_id : ℕ) (agent : Agent)
    {db' : Db} {v : AgentVersion}
    → created a db agent_id body user_id agent ≡ ok (db', v)
    → (m : ℕ) × (v ≡ new_agent_version db agent_id m body user_id) × (db' ≡ add_version agent v db)
unfolding created
created_ok a db agent_id body user_id agent {db'} {v} h =
    let (m, e, r) = bind_ok (resolve_model db.models body.model) _ h in
    (m.id, ground arith, ground arith)

-- An agent without a version.
IsConsistent-new_agent :
    (db : Db)
    → IsConsistent db
    → (x : Agent) → x.current_version_id ≡ none
    → IsConsistent (record db { agents = db.agents ++ x ∷ []; next_id = suc db.next_id })
IsConsistent-new_agent db c x e = record {
  fresh =
      All-map (λ (v : AgentVersion). v.id < db.next_id)
        (λ (v : AgentVersion). v.id < suc db.next_id) (λ v lt. omega arith) db.versions c.fresh;
  ids = c.ids;
  numbers = c.numbers;
  current =
      All-append (PointsHome db.versions) db.agents (x ∷ []) c.current
        (subst (IsNoneOrVersionOf db.versions x.id) (sym e) tt, tt);
  alias = c.alias;
}

keeps_pointer :
    (db : Db) (x : Agent) → PointsHome db.versions x → PointsHome db.versions (archive db x)
keeps_pointer db x h = elim (Bool-cases (is_some x.archived_at)) [ inl e ↦ rw e h | inr e ↦ rw e h ]

module _ (a : Adapters) (db : Db) (p : UserPrincipal) (c : IsConsistent db) where
  create_version-IsConsistent :
      (agent_id : ℕ) (body : VersionCreate) {db' : Db}
      → state_of (create_version a db p agent_id body) ≡ ok db'
      → IsConsistent db'
  unfolding create_version
  create_version-IsConsistent agent_id body {db'} h =
      let (v, e) = state_of_ok (create_version a db p agent_id body) h in
      let (agent, m, made) =
        bind_ok (managed_agent db p agent_id Role.editor) (created a db agent_id body p.user.id)
          e in
      let (found, _) = managed_agent_ok db p agent_id Role.editor m in
      let (model_id, new, same) = created_ok a db agent_id body p.user.id agent made in
      let row : AgentVersion = new_agent_version db agent_id model_id body p.user.id in
      let its : agent_id ≡ agent.id = sym (
        (==_iff agent.id agent_id).0
          (find_by_passes (λ (x : Agent). x.id == agent_id) db.agents found)) in
      subst IsConsistent (sym (same ∙ ap (λ w. add_version agent w db) new))
        (IsConsistent-add_version db c agent row refl its refl)

  promote_version-IsConsistent :
      (agent_id version_no : ℕ) {db' : Db}
      → state_of (promote_version db p agent_id version_no) ≡ ok db'
      → IsConsistent db'
  unfolding promote_version
  promote_version-IsConsistent agent_id version_no {db'} h =
      let (v, e) = state_of_ok (promote_version db p agent_id version_no) h in
      let (agent, m, rest) = bind_ok (managed_agent db p agent_id Role.owner) _ e in
      let (w, found, done) =
        bind_ok (or_raise (find_by (numbered agent_id version_no) db.versions) not_found) _ rest in
      let its =
        find_by_passes (λ (x : Agent). x.id == agent_id) db.agents
          (managed_agent_ok db p agent_id Role.owner m).0 in
      let same : db' ≡ record db { agents = modify agent.id (point_to w.id) db.agents } =
        ground arith in
      let home =
        IsVersionOf-found db.versions agent_id version_no c.ids
          (or_raise_ok (find_by (numbered agent_id version_no) db.versions) not_found found) in
      subst IsConsistent (sym same) (
        IsConsistent-agents db c _ (
          current-point_to db c db.versions agent.id w.id db.agents
            (subst (λ i. IsVersionOf db.versions i w.id) (sym ((==_iff agent.id agent_id).0 its))
              home)
            c.current))

  set_alias-IsConsistent :
      (agent_id : ℕ) (alias : String) (version_no : ℕ) {db' : Db}
      → state_of (set_alias db p agent_id alias version_no) ≡ ok db'
      → IsConsistent db'
  unfolding set_alias
  set_alias-IsConsistent agent_id alias version_no {db'} h =
      let (v, e) = state_of_ok (set_alias db p agent_id alias version_no) h in
      let (agent, m, rest) = bind_ok (managed_agent db p agent_id Role.owner) _ e in
      let (w, found, done) =
        bind_ok (or_raise (find_by (numbered agent_id version_no) db.versions) not_found) _ rest in
      let same : db' ≡ record db { aliases = put_alias agent_id alias w.id db.aliases } =
        ground arith in
      subst IsConsistent (sym same) (
        IsConsistent-aliases db c _ (
          LeadsHome-put_alias db c agent_id alias w.id (
            IsVersionOf-found db.versions agent_id version_no c.ids
              (or_raise_ok (find_by (numbered agent_id version_no) db.versions) not_found found))))

  delete_alias-IsConsistent :
      (agent_id : ℕ) (alias : String) {db' : Db}
      → delete_alias db p agent_id alias ≡ ok db'
      → IsConsistent db'
  unfolding delete_alias
  delete_alias-IsConsistent agent_id alias {db'} h =
      let same : db' ≡ record db { aliases = discard_by (is_alias agent_id alias) db.aliases } =
        ground arith in
      subst IsConsistent (sym same) (
        IsConsistent-aliases db c _
          (All-discard_by (LeadsHome db.versions) (is_alias agent_id alias) db.aliases c.alias))

  create_agent-IsConsistent :
      (body : AgentCreate) {db' : Db} → create_agent db p body ≡ ok db' → IsConsistent db'
  unfolding create_agent
  create_agent-IsConsistent body {db'} h =
      let (team, m, rest) = bind_ok (or_raise (find body.team_id db.teams) not_found) _ h in
      let same : db' ≡ record db {
        agents = db.agents ++ new_agent db team.tenant_id body ∷ [];
        next_id = suc db.next_id;
      } =
        ground arith in
      subst IsConsistent (sym same)
        (IsConsistent-new_agent db c (new_agent db team.tenant_id body) refl)

  update_agent-IsConsistent :
      (agent_id : ℕ) (u : AgentUpdate) {db' : Db}
      → update_agent db p agent_id u ≡ ok db'
      → IsConsistent db'
  unfolding update_agent updated
  update_agent-IsConsistent agent_id u {db'} h =
      let same : db' ≡ record db { agents = modify agent_id (apply_update u) db.agents } =
        ground arith in
      subst IsConsistent (sym same) (current-modify db c agent_id (apply_update u) (λ x k. k))

  archive_agent-IsConsistent :
      (agent_id : ℕ) {db' : Db} → archive_agent db p agent_id ≡ ok db' → IsConsistent db'
  unfolding archive_agent
  archive_agent-IsConsistent agent_id {db'} h =
      let same : db' ≡ record db { agents = modify agent_id (archive db) db.agents } =
        ground arith in
      subst IsConsistent (sym same) (current-modify db c agent_id (archive db) (keeps_pointer db))

  restore_agent-IsConsistent :
      (agent_id : ℕ) {db' : Db} → restore_agent db p agent_id ≡ ok db' → IsConsistent db'
  unfolding restore_agent
  restore_agent-IsConsistent agent_id {db'} h =
      let restored : Agent → Agent = λ x. record x { archived_at = none } in
      let same : db' ≡ record db { agents = modify agent_id restored db.agents } = ground arith in
      subst IsConsistent (sym same) (current-modify db c agent_id restored (λ x k. k))

act-IsConsistent :
    (a : Adapters) (db : Db) (r : UserPrincipal × Request) {db' : Db}
    → act a db r ≡ ok db'
    → IsConsistent db
    → IsConsistent db'
unfolding act
act-IsConsistent a db (p, submit_version i body) h c = create_version-IsConsistent a db p c i body h
act-IsConsistent a db (p, promote i k) h c = promote_version-IsConsistent a db p c i k h
act-IsConsistent a db (p, put i alias k) h c = set_alias-IsConsistent a db p c i alias k h
act-IsConsistent a db (p, remove i alias) h c = delete_alias-IsConsistent a db p c i alias h
act-IsConsistent a db (p, create body) h c = create_agent-IsConsistent a db p c body h
act-IsConsistent a db (p, update i u) h c = update_agent-IsConsistent a db p c i u h
act-IsConsistent a db (p, retire i) h c = archive_agent-IsConsistent a db p c i h
act-IsConsistent a db (p, restore i) h c = restore_agent-IsConsistent a db p c i h

-- In a consistent database the ids of versions are distinct, the versions of each agent are numbered from 1 on without
-- a gap or a repetition, and the current version of an agent and every alias are versions of that agent. It stays
-- consistent after any sequence of requests, whoever makes them, that create versions, promote one, set and delete
-- aliases, and create, update, archive and restore agents.
pub serve-IsConsistent :
    (a : Adapters) (db : Db) (rs : List (UserPrincipal × Request))
    → IsConsistent db
    → IsConsistent (serve a db rs)
unfolding serve
serve-IsConsistent a db [] c = c
serve-IsConsistent a db (r ∷ rs) c =
    serve-IsConsistent a (after_request db (act a db r)) rs
      (after_request-keeps IsConsistent db (act a db r) (λ d h. act-IsConsistent a db r h c) c)

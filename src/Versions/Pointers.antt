-- ===== src/Versions/Pointers.antt =====
-- The current version of an agent and its aliases point to versions of that agent, whatever requests are made.
use mathlib.Core.Path.{subst}
use sleeper_service.Base.{
  ℕ, suc, ◌+◌, ◌<◌, ◌≡◌, String, Option, none, some, List, [], ◌∷◌, ◌++◌, arith, refl, sym, inl,
  inr,
}
use sleeper_service.Base.Tests.{◌==◌, ==_iff, Bool-cases}
use sleeper_service.Base.Lists.{All, All-append, All-map}
use sleeper_service.Base.Table.{
  find, find_by, modify, find_by-append, find_by_passes, All-find_by, All-modify_by_test,
}
use sleeper_service.Models.Agents.{Agent, AgentVersion, VersionAlias, agent_keyed, version_keyed}
use sleeper_service.State.{Db}
use sleeper_service.Access.{is_some}
use sleeper_service.Versions.{
  add_version, point_to, numbered, put_alias, is_alias, repoint, last_version_no,
}
use sleeper_service.Versions.Numbers.{AreNumbered, AreNumbered-append}

-- A version of the agent has the id.
abbrev pub IsVersionOf : List AgentVersion → ℕ → ℕ → Type 0
IsVersionOf vs agent_id i = (v : AgentVersion) × (find i vs ≡ some v) × (v.agent_id ≡ agent_id)

abbrev pub IsNoneOrVersionOf : List AgentVersion → ℕ → Option ℕ → Type 0
IsNoneOrVersionOf vs agent_id none = Unit
IsNoneOrVersionOf vs agent_id (some i) = IsVersionOf vs agent_id i

abbrev pub PointsHome : List AgentVersion → Agent → Type 0
PointsHome vs a = IsNoneOrVersionOf vs a.id a.current_version_id

abbrev pub LeadsHome : List AgentVersion → VersionAlias → Type 0
LeadsHome vs r = IsVersionOf vs r.agent_id r.agent_version_id

-- A row of the table is the one found by its id.
abbrev pub HasId : List AgentVersion → AgentVersion → Type 0
HasId vs v = find v.id vs ≡ some v

pub record IsConsistent (db : Db) : Type 0 where
  pub fresh : All (λ (v : AgentVersion). v.id < db.next_id) db.versions
  pub ids : All (HasId db.versions) db.versions
  pub numbers : AreNumbered db.versions
  pub current : All (PointsHome db.versions) db.agents
  pub alias : All (LeadsHome db.versions) db.aliases

IsVersionOf-append :
    (vs ws : List AgentVersion) (a i : ℕ) → IsVersionOf vs a i → IsVersionOf (vs ++ ws) a i
IsVersionOf-append vs ws a i (v, found, home) =
    (v, ground (arith, find_by-append (λ (x : AgentVersion). x.id == i) vs ws), home)

none_or-append :
    (vs ws : List AgentVersion) (a : ℕ) (o : Option ℕ)
    → IsNoneOrVersionOf vs a o
    → IsNoneOrVersionOf (vs ++ ws) a o
none_or-append vs ws a none h = tt
none_or-append vs ws a (some i) h = IsVersionOf-append vs ws a i h

no_version :
    (n : ℕ) (vs : List AgentVersion) → All (λ (v : AgentVersion). v.id < n) vs → find n vs ≡ none
no_version n [] h = refl
no_version n (v ∷ vs) h = ground (arith, no_version n vs h.1)

-- The row that is added is found by its id.
IsVersionOf-new :
    (n : ℕ) (vs : List AgentVersion) (w : AgentVersion)
    → All (λ (v : AgentVersion). v.id < n) vs
    → w.id ≡ n
    → IsVersionOf (vs ++ w ∷ []) w.agent_id n
IsVersionOf-new n vs w h e = (
  w,
  ground (arith, find_by-append (λ (x : AgentVersion). x.id == n) vs (w ∷ []), no_version n vs h),
  refl,
)

pub HasId-append :
    (n : ℕ) (vs : List AgentVersion) (w : AgentVersion)
    → All (λ (v : AgentVersion). v.id < n) vs
    → w.id ≡ n
    → All (HasId vs) vs
    → All (HasId (vs ++ w ∷ [])) (vs ++ w ∷ [])
HasId-append n vs w fresh e h =
    All-append (HasId (vs ++ w ∷ [])) vs (w ∷ [])
      (All-map (HasId vs) (HasId (vs ++ w ∷ []))
        (λ v found. ground (arith, find_by-append (λ (x : AgentVersion). x.id == v.id) vs (w ∷ [])))
        vs h)
      (
        ground (
          arith,
          find_by-append (λ (x : AgentVersion). x.id == w.id) vs (w ∷ []),
          no_version n vs fresh,
        ),
        tt,
      )

-- A version that a request finds by the agent and the number.
pub IsVersionOf-found :
    (vs : List AgentVersion) (agent_id k : ℕ) {v : AgentVersion}
    → All (HasId vs) vs
    → find_by (numbered agent_id k) vs ≡ some v
    → IsVersionOf vs agent_id v.id
IsVersionOf-found vs agent_id k {v} ids e = (
  v,
  All-find_by (HasId vs) (numbered agent_id k) vs ids e,
  ground (arith, find_by_passes (numbered agent_id k) vs {x = v}),
)

module _ (db : Db) (c : IsConsistent db) where
  -- A version of an agent becomes its current one.
  pub current-point_to :
      (vs : List AgentVersion) (agent_id i : ℕ) (agents : List Agent)
      → IsVersionOf vs agent_id i
      → All (PointsHome vs) agents
      → All (PointsHome vs) (modify agent_id (point_to i) agents)
  current-point_to vs agent_id i agents v h =
      All-modify_by_test (PointsHome vs) (λ (a : Agent). a.id == agent_id) (point_to i)
        (λ a t old. subst (λ j. IsVersionOf vs j i) (sym ((==_iff a.id agent_id).0 t)) v) agents h

  pub IsConsistent-add_version :
      (agent : Agent) (w : AgentVersion)
      → w.id ≡ db.next_id
      → w.agent_id ≡ agent.id
      → w.version_no ≡ last_version_no w.agent_id db.versions + 1
      → IsConsistent (add_version agent w db)
  unfolding add_version
  IsConsistent-add_version agent w id home number =
      let vs : List AgentVersion = db.versions ++ w ∷ [] in
      let kept : All (PointsHome vs) db.agents =
        All-map (PointsHome db.versions) (PointsHome vs)
          (λ a. none_or-append db.versions (w ∷ []) a.id a.current_version_id) db.agents
          c.current in
      let new : IsVersionOf vs agent.id w.id =
        subst (λ j. IsVersionOf vs j w.id) home
          (subst (IsVersionOf vs w.agent_id) (sym id)
            (IsVersionOf-new db.next_id db.versions w c.fresh id)) in
      record {
        fresh =
            All-append (λ (v : AgentVersion). v.id < suc db.next_id) db.versions (w ∷ [])
              (All-map (λ (v : AgentVersion). v.id < db.next_id) _ (λ v lt. omega arith) db.versions
                c.fresh)
              (omega (arith, id), tt);
        ids = HasId-append db.next_id db.versions w c.fresh id c.ids;
        numbers = AreNumbered-append db.versions w number c.numbers;
        current = elim (Bool-cases (is_some agent.current_version_id)) [
          | inl b ↦ rw b kept
          | inr b ↦ rw b (current-point_to vs agent.id w.id db.agents new kept)
        ];
        alias =
            All-map (LeadsHome db.versions) (LeadsHome vs)
              (λ r. IsVersionOf-append db.versions (w ∷ []) r.agent_id r.agent_version_id)
              db.aliases c.alias;
      }

  pub IsConsistent-agents :
      (agents : List Agent)
      → All (PointsHome db.versions) agents
      → IsConsistent (record db { agents = agents })
  IsConsistent-agents agents h = record {
    fresh = c.fresh;
    ids = c.ids;
    numbers = c.numbers;
    current = h;
    alias = c.alias;
  }

  pub IsConsistent-aliases :
      (aliases : List VersionAlias)
      → All (LeadsHome db.versions) aliases
      → IsConsistent (record db { aliases = aliases })
  IsConsistent-aliases aliases h = record {
    fresh = c.fresh;
    ids = c.ids;
    numbers = c.numbers;
    current = c.current;
    alias = h;
  }

  -- A change of agents that keeps their ids and their pointers.
  pub current-modify :
      (i : ℕ) (f : Agent → Agent)
      → ((a : Agent) → PointsHome db.versions a → PointsHome db.versions (f a))
      → IsConsistent (record db { agents = modify i f db.agents })
  current-modify i f keep = IsConsistent-agents (modify i f db.agents) (
      All-modify_by_test (PointsHome db.versions) (λ (a : Agent). a.id == i) f (λ a t h. keep a h)
        db.agents c.current)

  pub LeadsHome-put_alias :
      (agent_id : ℕ) (alias : String) (i : ℕ)
      → IsVersionOf db.versions agent_id i
      → All (LeadsHome db.versions) (put_alias agent_id alias i db.aliases)
  unfolding put_alias
  LeadsHome-put_alias agent_id alias i v =
      elim (Bool-cases (is_some (find_by (is_alias agent_id alias) db.aliases))) [
        | inl b ↦ rw b (
            All-modify_by_test (LeadsHome db.versions) (is_alias agent_id alias) (repoint i)
              (λ r t h.
                let same : agent_id ≡ r.agent_id = ground arith in
                subst (λ j. IsVersionOf db.versions j i) same v)
              db.aliases c.alias)
        | inr b ↦ rw b (All-append (LeadsHome db.versions) db.aliases _ c.alias (v, tt))
      ]

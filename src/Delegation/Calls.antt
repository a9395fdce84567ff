-- ===== src/Delegation/Calls.antt =====
-- Whom an agent may call, and how deep.
use sleeper_service.Base.{
  ℕ, ◌+◌, ◌≤◌, ◌<◌, ◌≡◌, ◌≢◌, refl, ap, ◌∙◌, arith, inl, inr, String, true, false, none, some, List,
  [], ◌∷◌, ◌++◌, ◌&&◌,
}
use sleeper_service.Base.Tests.{Bool-cases, Option-cases, leb, str_eq, ◌==◌, ==_iff}
use sleeper_service.Base.Table.{find, find_by, find_by_passes, find_by-append}
use sleeper_service.Models.Agents.{Agent, AgentVersion, version_keyed}
use sleeper_service.Models.Jobs.{Job, queued, job_keyed}
use sleeper_service.State.{Db, Settings}
use sleeper_service.Delegation.{made, call_agent, add_child, is_permitted, has, child_job}
use sleeper_service.Delegation.Ancestry.{climb, HasOlderParents, ancestry_finds}

-- What the child of a call is: it is queued below the calling job, for a permitted agent that no job of the chain runs,
-- and the chain has room for it.
abbrev pub Delegated : Settings → Db → Agent → ℕ → Db → ℕ → Type 0
Delegated settings db caller job_id db' i =
    (target : Agent) × (job : Job) × (child : Job) × (is_permitted caller target ≡ true)
    × (find job_id db.jobs ≡ some job)
    × (find i db'.jobs ≡ some child)
    × (db'.jobs ≡ db.jobs ++ child ∷ [])
    × (child.agent_id ≡ target.id)
    × (child.parent_job_id ≡ some job_id)
    × (child.status ≡ queued)
    × ((n : ℕ) (a : Job)
        → climb db.jobs n job ≡ some a
        → (a.agent_id ≢ target.id) × (n + 1 < settings.max_delegation_depth))

find-last :
    (jobs : List Job) (child : Job)
    → find child.id jobs ≡ none
    → find child.id (jobs ++ child ∷ []) ≡ some child
find-last jobs child fresh =
    find_by-append (λ (j : Job). j.id == child.id) jobs (child ∷ []) ∙ ground arith

apart : (x y : ℕ) (agents : List ℕ) → has x agents ≡ true → has y agents ≡ false → x ≢ y
apart x y agents seen clear same = absurd (cc)

module _ (settings : Settings) (db : Db) (caller : Agent) (job_id : ℕ) where
  add_child-Delegated :
      (target : Agent) (version : AgentVersion) (job : Job) (prompt : String) (d : ℕ)
      (agents : List ℕ) {db' : Db} {i : ℕ}
      → is_permitted caller target ≡ true
      → find job_id db.jobs ≡ some job
      → find db.next_id db.jobs ≡ none
      → ((n : ℕ) (a : Job)
          → climb db.jobs n job ≡ some a
          → (has a.agent_id agents ≡ true) × (n ≤ d))
      → add_child settings db target version job prompt (d, agents) ≡ made db' i
      → Delegated settings db caller job_id db' i
  unfolding add_child
  add_child-Delegated target version job prompt d agents {db'} {i} may here fresh found e =
      elim (Bool-cases (leb settings.max_delegation_depth (d + 1))) [
        | inl deep ↦ absurd (ground arith)
        | inr shallow ↦ elim (Bool-cases (has target.id agents)) [
          | inl cyclic ↦ absurd (ground arith)
          | inr clear ↦
              let child = child_job db target version job prompt in
              let id : job.id ≡ job_id =
                (==_iff job.id job_id).0
                  (find_by_passes (λ (j : Job). j.id == job_id) db.jobs here) in
              let at : i ≡ db.next_id = ground arith in
              let jobs : db'.jobs ≡ db.jobs ++ child ∷ [] = ground arith in
              (
                target,
                job,
                child,
                may,
                here,
                rw (at, jobs) (find-last db.jobs child fresh),
                jobs,
                refl,
                ap (λ k. some k) id,
                refl,
                λ n a c.
                    let (seen, le) = found n a c in
                    (
                      λ same. absurd (apart a.agent_id target.id agents seen clear same),
                      ground arith,
                    ),
              )
        ]
      ]

  -- A call that is not refused adds one job for an agent that the caller may call. The agent runs none of the jobs from
  -- the calling one upwards, so no chain of calls returns to an agent, and the calling job has so few above it that
  -- the chain stays within the depth limit. Every job is taken to have a greater id than its parent.
  pub call_agent-Delegated :
      (agent_name prompt : String) {db' : Db} {i : ℕ}
      → HasOlderParents db.jobs
      → find db.next_id db.jobs ≡ none
      → call_agent settings db caller job_id agent_name prompt ≡ made db' i
      → Delegated settings db caller job_id db' i
  unfolding call_agent
  call_agent-Delegated agent_name prompt {db'} {i} older fresh e =
      elim (Option-cases
        (find_by (λ (a : Agent). is_permitted caller a && str_eq a.name agent_name) db.agents)) [
          | inl n ↦ absurd (ground arith)
          | inr (target, t) ↦ elim (Option-cases target.current_version_id) [
            | inl n ↦ absurd (ground arith)
            | inr (version_id, v) ↦ elim (Option-cases (find job_id db.jobs)) [
              | inl n ↦ absurd (ground arith)
              | inr (job, j) ↦ elim (Option-cases (find version_id db.versions)) [
                | inl n ↦ absurd (ground arith)
                | inr (version, w) ↦
                    let named : (is_permitted caller target && str_eq target.name agent_name)
                        ≡ true =
                      find_by_passes
                        (λ (a : Agent). is_permitted caller a && str_eq a.name agent_name) db.agents
                        t in
                    let id : job.id ≡ job_id =
                      (==_iff job.id job_id).0
                        (find_by_passes (λ (k : Job). k.id == job_id) db.jobs j) in
                    let (d, agents, q, found) =
                      ancestry_finds db.jobs older job (ap (λ k. find k db.jobs) id ∙ j) in
                    let child : add_child settings db target version job prompt (d, agents)
                        ≡ made db' i =
                      rw (call_agent, t, v, j, w, q) at e in
                    add_child-Delegated target version job prompt d agents {db' = db'} {i = i}
                      (ground arith) j fresh found child
              ]
            ]
          ]
        ]

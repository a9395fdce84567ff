-- ===== src/Jobs/Submit.antt =====
-- What a submission may refer to, and what a retry does.
use sleeper_service.Base.{
  ℕ, ◌≡◌, ◌≢◌, ◌⊎◌, refl, arith, inl, inr, Bool, true, false, none, some, List, [], ◌∷◌,
}
use sleeper_service.Base.Tests.{Bool-cases, Option-cases, ◌==◌, ==_iff}
use sleeper_service.Base.Lists.{All}
use sleeper_service.Base.Table.{find}
use sleeper_service.Base.Result.{Result, HttpError, conflict, ok, err, Result-cases}
use sleeper_service.Models.Auth.{tenant_keyed}
use sleeper_service.Models.Agents.{Agent, AgentVersion}
use sleeper_service.Models.Jobs.{File, job_keyed, file_keyed}
use sleeper_service.State.{Db}
use sleeper_service.Services.{Services}
use sleeper_service.Access.{Principal, get_agent_for}
use sleeper_service.Jobs.{Order, create_job}
use sleeper_service.Jobs.Handlers.{
  Submission, Policy, submit_job, allow_files, check_files, is_below_tenant, resolve_version,
  order_of,
}

-- A file of the tenant.
abbrev pub IsFileOf : Db → ℕ → ℕ → Type 0
IsFileOf db tenant_id i =
    (file : File) × (find i db.files ≡ some file) × (file.tenant_id ≡ tenant_id)

pub check_files-All :
    (db : Db) (tenant_id : ℕ) (is : List ℕ)
    → check_files db tenant_id is ≡ ok tt
    → All (IsFileOf db tenant_id) is
unfolding check_files
check_files-All db tenant_id [] h = tt
check_files-All db tenant_id (i ∷ is) h = elim (Option-cases (find i db.files)) [
  | inl n ↦ absurd (ground arith)
  | inr (file, e) ↦ elim (Bool-cases (file.tenant_id == tenant_id)) [
    | inr no_match ↦ absurd (ground arith)
    | inl same ↦ (
      (file, e, (==_iff file.tenant_id tenant_id).0 same),
      check_files-All db tenant_id is (ground arith),
    )
  ]
]

-- What a submission that refers to files needs.
abbrev pub MayRefer : Db → Principal → Agent → List ℕ → Type 0
MayRefer db p agent files =
    All (IsFileOf db agent.tenant_id) files × ((is_below_tenant p ≡ false) ⊎ (files ≡ []))

allow_files-MayRefer :
    (db : Db) (p : Principal) (agent : Agent) (files : List ℕ)
    → allow_files db p agent files ≡ ok tt
    → MayRefer db p agent files
unfolding allow_files
allow_files-MayRefer db p agent [] h = (tt, inr refl)
allow_files-MayRefer db p agent (i ∷ is) h = elim (Bool-cases (is_below_tenant p)) [
  | inl below ↦ absurd (ground arith)
  | inr above ↦ (check_files-All db agent.tenant_id (i ∷ is) (ground arith), inl above)
]

-- The call gave a value.
abbrev Succeeds : Result (Db × ℕ × Bool) → Type 0
Succeeds r = (e : HttpError) → r ≢ err e

not_archived :
    (s : Services) (race : Db → Db) (agent : Agent) (version : AgentVersion) (o : Order)
    (sync : Bool) (db : Db)
    → Succeeds (create_job s race agent version o sync db)
    → agent.archived_at ≡ none
unfolding create_job
not_archived s race agent version o sync db h = elim (Option-cases agent.archived_at) [
  | inl n ↦ n
  | inr (t, a) ↦ absurd (h conflict (ground arith))
]

-- A job is only submitted to an agent that the principal may submit to and that is not archived. Every file that it
-- refers to is one of the agent's tenant, and an invoke key below the tenant refers to none.
pub submit_job-MayRefer :
    (s : Services) (race : Db → Db) (policy : Policy) (db : Db) (p : Principal) (agent_id : ℕ)
    (sub : Submission) (sync : Bool) {r : Db × ℕ}
    → submit_job s race policy db p agent_id sub sync ≡ ok r
    → (agent : Agent) × (get_agent_for db.agents p agent_id true ≡ ok agent)
      × (agent.archived_at ≡ none)
      × MayRefer db p agent sub.files
unfolding submit_job
submit_job-MayRefer s race policy db p agent_id sub sync h =
    elim (Result-cases (get_agent_for db.agents p agent_id true)) [
      | inl (agent, e) ↦ elim (Result-cases (resolve_version db agent sub)) [
        | inr (x, v) ↦ absurd (ground arith)
        | inl (version, v) ↦ elim (Option-cases (find agent.tenant_id db.tenants)) [
          | inl n ↦ absurd (ground arith)
          | inr (tenant, t) ↦ (
            agent,
            e,
            not_archived s race agent version (order_of sub p agent) sync db (λ x c. ground arith),
            allow_files-MayRefer db p agent sub.files (ground arith),
          )
        ]
      ]
      | inr (x, e) ↦ absurd (ground arith)
    ]

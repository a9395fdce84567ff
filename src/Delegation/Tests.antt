-- ===== src/Delegation/Tests.antt =====
-- One call between two agents of a tenant.
use sleeper_service.Base.{◌≡◌, refl, arith, some, [], ◌∷◌}
use sleeper_service.Models.Json.{text, field, end}
use sleeper_service.Models.Agents.{Agent, AgentVersion}
use sleeper_service.Models.Jobs.{job_keyed}
use sleeper_service.State.{Db}
use sleeper_service.Delegation.{call_agent, made, add_child, ancestry, climb_ancestry, child_job}
use sleeper_service.Delegation.Ancestry.{HasOlderParents}
use sleeper_service.Delegation.Calls.{Delegated, call_agent-Delegated}
use sleeper_service.Jobs.{add_job}
use sleeper_service.Samples.{db, settings, helper, helper_v1, waiting}

abbrev caller : Agent
caller = record helper { options = field "delegation" (text "tenant") end }

abbrev expert : Agent
expert = record helper { id = 40; team_id = 41; name = "expert"; current_version_id = some 42 }

abbrev expert_v1 : AgentVersion
expert_v1 = record helper_v1 { id = 42; agent_id = 40 }

abbrev pair_db : Db
pair_db = record db { agents = caller ∷ expert ∷ []; versions = helper_v1 ∷ expert_v1 ∷ [] }

pair_db-HasOlderParents : HasOlderParents pair_db.jobs
pair_db-HasOlderParents i p j e q = absurd (ground arith)

abbrev called_db : Db
called_db = add_job (child_job pair_db expert expert_v1 waiting "Sum up") pair_db

calls : call_agent settings pair_db caller 7 "expert" "Sum up" ≡ made called_db 100
unfolding call_agent add_child ancestry climb_ancestry
calls = refl

call_agent-Delegated_example : Delegated settings pair_db caller 7 called_db 100
call_agent-Delegated_example =
    call_agent-Delegated settings pair_db caller 7 "expert" "Sum up" {db' = called_db} {i = 100}
      pair_db-HasOlderParents refl calls

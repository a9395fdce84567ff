-- ===== src/Prompts/Tests.antt =====
-- A tenant saves its first prompt.
use sleeper_service.Base.{none}
use sleeper_service.Prompts.{Owner}

abbrev owner : Owner
owner = record { tenant_id = 1; team_id = none }

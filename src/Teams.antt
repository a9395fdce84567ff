-- ===== src/Teams.antt =====
-- api/v1/teams.py: teams and their members. The proofs are in the module below.
pub mod Owners
mod Tests
use sleeper_service.Base.{
  ℕ, suc, ◌+◌, String, Bool, true, false, Option, none, some, List, [], ◌∷◌, ◌++◌, ◌&&◌, not,
}
use sleeper_service.Base.Tests.{leb, ◌==◌, str_eq, if◌then◌else◌}
use sleeper_service.Base.Lists.{count}
use sleeper_service.Base.Table.{find, find_by, modify_by, discard_by}
use sleeper_service.Base.Result.{
  Result, ok, err, HttpError, ◌>>=◌, ◌>>◌, guard, or_raise, not_found, conflict, unprocessable,
}
use sleeper_service.Models.Auth.{
  Role, is_owner, Tenant, Team, User, TeamMember, tenant_keyed, team_keyed, user_keyed,
}
use sleeper_service.Access.{UserPrincipal, is_some, require_role, require_tenant_admin}

-- The tables that the handlers use; `next_id` is the UUID of the next row.
pub record Directory : Type 0 where
  pub tenants : List Tenant
  pub teams : List Team
  pub users : List User
  pub members : List TeamMember
  pub next_id : ℕ

abbrev pub is_member : ℕ → ℕ → TeamMember → Bool
is_member user_id team_id m = (m.user_id == user_id) && (m.team_id == team_id)

abbrev pub owns : ℕ → TeamMember → Bool
owns team_id m = (m.team_id == team_id) && is_owner m.role

unfoldable pub forbid_removing_last_owner : Directory → ℕ → Result (Unit {0})
forbid_removing_last_owner d team_id =
    if leb (count (owns team_id) d.members) 1 then err conflict else ok tt

abbrev get_or_else : Option ℕ → ℕ → ℕ
get_or_else none b = b
get_or_else (some a) b = a

-- The rows that `create_team` adds: the team, and its owner's membership.
insert_team : Directory → ℕ → String → ℕ → Directory
insert_team d tenant_id name owner_id = record d {
  teams =
      d.teams
      ++ record { id = d.next_id; tenant_id = tenant_id; name = name; is_org_team = false } ∷ [];
  members = d.members ++ record { user_id = owner_id; team_id = d.next_id; role = Role.owner } ∷ [];
  next_id = suc d.next_id;
}

unfoldable pub create_team : Directory → UserPrincipal → ℕ → String → Option ℕ → Result Directory
unfolding insert_team
create_team d p tenant_id name owner_user_id = do
  or_raise (find tenant_id d.tenants) not_found
  require_tenant_admin d.teams p tenant_id
  guard
      (not (
        is_some (find_by (λ (t : Team). (t.tenant_id == tenant_id) && str_eq t.name name) d.teams)))
      conflict
  let owner_id = get_or_else owner_user_id p.user.id
  or_raise (find owner_id d.users) unprocessable
  ok (insert_team d tenant_id name owner_id)

-- The `else` branch of `set_member`, for the member's row.
change_role : Directory → ℕ → ℕ → TeamMember → Role → Result Directory
unfolding forbid_removing_last_owner
change_role d team_id user_id m role = do
  (if is_owner m.role && not (is_owner role) then forbid_removing_last_owner d team_id else ok tt)
  ok (record d {
    members =
        modify_by (is_member user_id team_id) (λ (r : TeamMember). record r { role = role })
          d.members;
  })

unfoldable pub set_member : Directory → UserPrincipal → ℕ → ℕ → Role → Result Directory
unfolding change_role
set_member d p team_id user_id role = do
  or_raise (find team_id d.teams) not_found
  require_role p team_id Role.owner
  or_raise (find user_id d.users) unprocessable
  elim (find_by (is_member user_id team_id) d.members) [
    | none ↦ ok (record d {
      members = d.members ++ (record { user_id = user_id; team_id = team_id; role = role }) ∷ [];
    })
    | some m ↦ change_role d team_id user_id m role
  ]

unfoldable pub remove_member : Directory → UserPrincipal → ℕ → ℕ → Result Directory
unfolding forbid_removing_last_owner
remove_member d p team_id user_id = do
  or_raise (find team_id d.teams) not_found
  require_role p team_id Role.owner
  m ← or_raise (find_by (is_member user_id team_id) d.members) not_found
  (if is_owner m.role then forbid_removing_last_owner d team_id else ok tt)
  ok (record d { members = discard_by (is_member user_id team_id) d.members })

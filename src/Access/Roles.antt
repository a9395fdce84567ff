-- ===== src/Access/Roles.antt =====
-- The team roles of auth/rbac.py: who passes a check, and how a refusal is told.
use sleeper_service.Base.{ℕ, ◌≤◌, ◌<◌, ◌≡◌, ◌⊎◌, ◌↔◌, true, false, none, some, List, arith}
use sleeper_service.Base.Result.{ok, err, not_found, forbidden}
use sleeper_service.Models.Auth.{Role, role_rank, Team}
use sleeper_service.Access.{
  UserPrincipal, role_in, has_role, require_role, is_tenant_admin, require_tenant_admin,
  visible_team_ids, is_empty,
}

-- The principal holds a role of at least this rank in the team.
abbrev pub HoldsRole : UserPrincipal → ℕ → Role → Type 0
HoldsRole p t min_role =
    (r : Role) × (role_in t p.roles ≡ some r) × (role_rank min_role ≤ role_rank r)

module _ (p : UserPrincipal) (t : ℕ) (min_role : Role) where
  pub has_role-HoldsRole :
      has_role p t min_role ≡ true → (p.user.is_superuser ≡ true) ⊎ HoldsRole p t min_role
  unfolding has_role
  has_role-HoldsRole h = ground arith

  -- `require_role` passes exactly for a superuser and for a role of sufficient rank in the team. It raises 404
  -- exactly for a principal that is no superuser and has no role there, and 403 exactly for one that is no
  -- superuser and whose role there is of a lower rank.
  pub require_role_verdict :
      ((require_role p t min_role ≡ ok tt)
        ↔ ((p.user.is_superuser ≡ true) ⊎ HoldsRole p t min_role))
      × ((require_role p t min_role ≡ err not_found)
          ↔ ((p.user.is_superuser ≡ false) × (role_in t p.roles ≡ none)))
      × ((require_role p t min_role ≡ err forbidden) ↔ (
          (p.user.is_superuser ≡ false)
          × ((r : Role) × (role_in t p.roles ≡ some r) × (role_rank r < role_rank min_role))))
  unfolding require_role
  require_role_verdict = (
    (λ h. ground arith, λ h. ground arith),
    (λ h. ground arith, λ h. ground arith),
    (λ h. ground arith, λ h. ground arith),
  )

-- The tenant's administrators pass. Another principal is told that the tenant exists, by a 403, exactly if
-- some team of the tenant is visible to it.
pub require_tenant_admin_verdict :
    (teams : List Team) (p : UserPrincipal) (tenant_id : ℕ)
    → ((require_tenant_admin teams p tenant_id ≡ ok tt)
        ↔ (is_tenant_admin teams p tenant_id ≡ true))
      × ((require_tenant_admin teams p tenant_id ≡ err forbidden) ↔ (
          (is_tenant_admin teams p tenant_id ≡ false)
          × (is_empty (visible_team_ids teams p tenant_id) ≡ false)))
unfolding require_tenant_admin
require_tenant_admin_verdict teams p tenant_id = ground arith

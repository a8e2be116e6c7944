-- ===== src/Permission/Service.antt =====
-- internal/service/permission_service.go. The organization service's GetMembership and the
-- subscriptions are arguments; a membership that is found is never nil.
use passwall_server.Base.{
  ℕ, String, Bool, true, not, List, if◌then◌else◌, Result, ok, err, wrap, map_result,
}
use passwall_server.Membership.Record.{OrganizationRole, OrganizationUser}
use passwall_server.Subscription.Record.{Subscription, can_write}
use passwall_server.Permission.Matrix.{read_only, can, get_permissions}

abbrev pub override_answer : Result Subscription → Bool
override_answer (ok sub) = not (can_write sub)
override_answer (err e) = true

abbrev pub role_answer : Bool → Result OrganizationUser → Result OrganizationRole
role_answer overridden (err e) = err (wrap "failed to get membership" e)
role_answer overridden (ok m) = if overridden then ok read_only else ok m.role

module _ (memberships : ℕ → ℕ → Result OrganizationUser)
    (subscriptions : ℕ → Result Subscription) where
  unfoldable pub check_subscription_override : ℕ → Bool
  check_subscription_override org_id = override_answer (subscriptions org_id)

  unfoldable pub get_effective_role : ℕ → ℕ → Result OrganizationRole
  get_effective_role user_id org_id =
      role_answer (check_subscription_override org_id) (memberships user_id org_id)

  unfoldable pub can_in : ℕ → ℕ → String → Result Bool
  can_in user_id org_id permission =
      map_result (λ role. can role permission) (get_effective_role user_id org_id)

  unfoldable pub get_user_permissions : ℕ → ℕ → Result (List String)
  get_user_permissions user_id org_id =
      map_result get_permissions (get_effective_role user_id org_id)

-- ===== src/Membership/Service.antt =====
-- Changing and ending memberships (internal/service/organization_service.go). The log is left out.
use passwall_server.Base.{
  ℕ, Option, none, some, Bool, true, false, List, [], ◌∷◌, M, ◌>>=◌, ◌>>◌, pure, fail, require,
  on_error, not, ◌&&◌, ◌==◌, if◌then◌else◌, Result, ok, err, Error, forbidden, message, wrap,
  eq_not_found, translate, map_error,
}
use passwall_server.Membership.Record.{
  OrganizationRole, owner, admin, manager, member, billing, other_role, OrganizationUser, eq_owner,
  eq_invited, is_admin,
}
use passwall_server.Membership.Tables.{
  TeamUser, CollectionUser, Store, Engines, get_member, get_by_org_and_user, update_member,
  delete_member, list_team_users, delete_team_user, list_collection_users, delete_collection_user,
}

pub record UpdateOrgUserRoleRequest : Type 0 where
  pub role : OrganizationRole
  pub access_all : Option Bool

unfoldable pub is_supported_org_role : OrganizationRole → Bool
is_supported_org_role owner = true
is_supported_org_role admin = true
is_supported_org_role manager = true
is_supported_org_role member = true
is_supported_org_role billing = false
is_supported_org_role (other_role s) = false

-- `err == repository.ErrNotFound` becomes ErrForbidden.
abbrev pub permission_error : Error → Error
permission_error e = if eq_not_found e then forbidden else e

abbrev pub with_role : UpdateOrgUserRoleRequest → OrganizationUser → OrganizationUser
with_role req ou = elim req.access_all [
  | none ↦ record ou { role = req.role }
  | some b ↦ record ou { role = req.role; access_all = b }
]

module _ (db : Engines) where
  unfoldable pub check_permission : ℕ → ℕ → Bool → M Store (Unit {0})
  check_permission org_id user_id require_admin = do
    org_user ← on_error permission_error (get_by_org_and_user db org_id user_id)
    require (not (require_admin && not (is_admin org_user))) forbidden

  unfoldable pub update_member_role : ℕ → ℕ → ℕ → UpdateOrgUserRoleRequest → M Store (Unit {0})
  update_member_role org_id org_user_id requesting_user_id req = do
    require (is_supported_org_role req.role) (message "invalid organization role")
    check_permission org_id requesting_user_id true
    requester_membership ←
        on_error (λ _. forbidden) (get_by_org_and_user db org_id requesting_user_id)
    require (not (eq_owner req.role && not (eq_owner requester_membership.role))) forbidden
    org_user ← on_error (wrap "member not found") (get_member db org_user_id)
    require (not (eq_owner org_user.role)) (message "cannot change owner role")
    on_error (wrap "failed to update member role") (update_member db (with_role req org_user))

  unfoldable pub delete_team_users : List TeamUser → M Store (Unit {0})
  delete_team_users [] = pure tt
  delete_team_users (t ∷ ts) =
      on_error (wrap "failed to remove member") (delete_team_user db t.id) >> delete_team_users ts

  unfoldable pub delete_collection_users : List CollectionUser → M Store (Unit {0})
  delete_collection_users [] = pure tt
  delete_collection_users (c ∷ cs) =
      on_error (wrap "failed to remove member") (delete_collection_user db c.id)
      >> delete_collection_users cs

  unfoldable pub remove_member : ℕ → ℕ → ℕ → M Store (Unit {0})
  remove_member org_id org_user_id requesting_user_id = do
    check_permission org_id requesting_user_id true
    org_user ← on_error (wrap "member not found") (get_member db org_user_id)
    require (org_user.organization_id == org_id) forbidden
    require (not (eq_owner org_user.role)) (message "cannot remove owner from organization")
    team_users ← on_error (wrap "failed to remove member") (list_team_users db org_user_id)
    delete_team_users team_users
    collection_users ←
        on_error (wrap "failed to remove member") (list_collection_users db org_user_id)
    delete_collection_users collection_users
    on_error (wrap "failed to remove member") (delete_member db org_user_id)

  unfoldable pub decline_found : Result OrganizationUser → M Store (Unit {0})
  decline_found (err e) = if eq_not_found e then pure tt else fail e
  decline_found (ok ou) = do
    require (eq_invited ou.status) (message "invitation already processed")
    on_error (wrap "failed to decline org invitation") (delete_member db ou.id)

  unfoldable pub decline_invitation_for_user : ℕ → ℕ → M Store (Unit {0})
  unfolding decline_found
  decline_invitation_for_user org_id user_id s =
      decline_found
        (map_error translate (
          db.members.first (λ x. (x.organization_id == org_id) && (x.user_id == user_id))
            s.members))
        s

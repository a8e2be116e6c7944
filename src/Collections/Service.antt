-- ===== src/Collections/Service.antt =====
-- The operations on the access to a collection: the grants, revocations and reads of
-- internal/service/collection_service.go. Where gorm finds a row, it is not nil.
use passwall_server.Base.{
  ℕ, Bool, Option, none, some, List, map, M, ◌==◌, Result, ok, err, query, require, on_error, pure,
  wrap, message, forbidden, map_result, ◌>>=◌, ◌>>◌,
}
use passwall_server.Membership.Record.{OrganizationUser}
use passwall_server.Membership.Tables.{CollectionUser, TeamUser}
use passwall_server.Organization.Tables.{CollectionTeam}
use passwall_server.Authz.Collections.{CollectionAccess, compute_collection_access}
use passwall_server.Authz.Collections
use passwall_server.Collections.Record.{
  Store, Engines, get_collection, find_member, find_by_org_and_user, get_team, get_user_grant,
  get_team_grant, list_collection_users, list_collection_teams, list_by_org_user,
  create_collection_user, update_collection_user, create_collection_team, update_collection_team,
  delete_user_grant, delete_team_grant,
}

pub record GrantCollectionAccessRequest : Type 0 where
  pub can_read : Bool
  pub can_write : Bool
  pub can_admin : Bool
  pub hide_passwords : Bool

-- The flags of a grant, as package authz reads them.
abbrev pub user_flags : CollectionUser → CollectionAccess
user_flags x = record {
  can_read = x.can_read;
  can_write = x.can_write;
  can_admin = x.can_admin;
  hide_passwords = x.hide_passwords;
}

abbrev pub team_flags : CollectionTeam → Collections.CollectionTeam
team_flags x = record {
  team_id = x.team_id;
  access = record {
    can_read = x.can_read;
    can_write = x.can_write;
    can_admin = x.can_admin;
    hide_passwords = x.hide_passwords;
  };
}

-- The test `err == nil && existing != nil`.
abbrev pub existing_grant {ℓ} : {A : Type ℓ} → Result A → Option A
existing_grant (ok a) = some a
existing_grant (err e) = none

abbrev pub changed_user : GrantCollectionAccessRequest → CollectionUser → CollectionUser
changed_user req x = record x {
  can_read = req.can_read;
  can_write = req.can_write;
  can_admin = req.can_admin;
  hide_passwords = req.hide_passwords;
}

abbrev pub new_user : ℕ → ℕ → GrantCollectionAccessRequest → CollectionUser
new_user collection_id org_user_id req = record {
  id = 0;
  collection_id = collection_id;
  organization_user_id = org_user_id;
  can_read = req.can_read;
  can_write = req.can_write;
  can_admin = req.can_admin;
  hide_passwords = req.hide_passwords;
}

abbrev pub changed_team : GrantCollectionAccessRequest → CollectionTeam → CollectionTeam
changed_team req x = record x {
  can_read = req.can_read;
  can_write = req.can_write;
  can_admin = req.can_admin;
  hide_passwords = req.hide_passwords;
}

abbrev pub new_team : ℕ → ℕ → GrantCollectionAccessRequest → CollectionTeam
new_team collection_id team_id req = record {
  id = 0;
  collection_id = collection_id;
  team_id = team_id;
  can_read = req.can_read;
  can_write = req.can_write;
  can_admin = req.can_admin;
  hide_passwords = req.hide_passwords;
}

module _ (db : Engines) where
  -- ComputeCollectionAccess on the repositories.
  unfoldable pub access_of : OrganizationUser → ℕ → Store → Result CollectionAccess
  access_of ou collection_id s =
      compute_collection_access (some ou) collection_id
        (λ c m. map_result (λ x. some (user_flags x)) (get_user_grant db c m s))
        (λ c. map_result (map team_flags) (list_collection_teams db c s))
        (λ m. map_result (map (λ (t : TeamUser). t.team_id)) (list_by_org_user db m s))

  unfoldable pub check_collection_access : ℕ → ℕ → ℕ → M Store Bool
  check_collection_access org_id collection_id user_id = do
    ou ← on_error (λ _. forbidden) (query (find_by_org_and_user db org_id user_id))
    access ← query (access_of ou collection_id)
    pure access.can_read

  unfoldable pub check_collection_manage_permission : ℕ → ℕ → ℕ → M Store Bool
  check_collection_manage_permission org_id collection_id user_id = do
    ou ← on_error (λ _. forbidden) (query (find_by_org_and_user db org_id user_id))
    access ← query (access_of ou collection_id)
    pure access.can_admin

  unfoldable pub store_user_grant :
      ℕ → ℕ → GrantCollectionAccessRequest → Option CollectionUser → M Store (Unit {0})
  store_user_grant collection_id org_user_id req (some x) =
      on_error (wrap "failed to update access") (update_collection_user db (changed_user req x))
  store_user_grant collection_id org_user_id req none = do
    x ←
        on_error (wrap "failed to grant access")
          (create_collection_user db (new_user collection_id org_user_id req))
    pure tt

  unfoldable pub store_team_grant :
      ℕ → ℕ → GrantCollectionAccessRequest → Option CollectionTeam → M Store (Unit {0})
  store_team_grant collection_id team_id req (some x) =
      on_error (wrap "failed to update access") (update_collection_team db (changed_team req x))
  store_team_grant collection_id team_id req none = do
    x ←
        on_error (wrap "failed to grant access")
          (create_collection_team db (new_team collection_id team_id req))
    pure tt

  unfoldable pub grant_user_access : ℕ → ℕ → ℕ → GrantCollectionAccessRequest → M Store (Unit {0})
  grant_user_access collection_id org_user_id requesting_user_id req = do
    c ← on_error (wrap "collection not found") (query (get_collection db collection_id))
    can_manage ←
        check_collection_manage_permission c.organization_id collection_id requesting_user_id
    require can_manage forbidden
    target ← on_error (wrap "organization user not found") (query (find_member db org_user_id))
    require (target.organization_id == c.organization_id)
        (message "user is not a member of this organization")
    existing ← query (λ s. ok (existing_grant (get_user_grant db collection_id org_user_id s)))
    store_user_grant collection_id org_user_id req existing

  unfoldable pub grant_team_access : ℕ → ℕ → ℕ → GrantCollectionAccessRequest → M Store (Unit {0})
  grant_team_access collection_id team_id requesting_user_id req = do
    c ← on_error (wrap "collection not found") (query (get_collection db collection_id))
    can_manage ←
        check_collection_manage_permission c.organization_id collection_id requesting_user_id
    require can_manage forbidden
    team ← on_error (wrap "team not found") (query (get_team db team_id))
    require (team.organization_id == c.organization_id)
        (message "team is not in the same organization")
    existing ← query (λ s. ok (existing_grant (get_team_grant db collection_id team_id s)))
    store_team_grant collection_id team_id req existing

  unfoldable pub revoke_user_access : ℕ → ℕ → ℕ → M Store (Unit {0})
  revoke_user_access collection_id org_user_id requesting_user_id = do
    c ← on_error (wrap "collection not found") (query (get_collection db collection_id))
    can_manage ←
        check_collection_manage_permission c.organization_id collection_id requesting_user_id
    require can_manage forbidden
    n ← on_error (wrap "failed to revoke access") (delete_user_grant db collection_id org_user_id)
    pure tt

  unfoldable pub revoke_team_access : ℕ → ℕ → ℕ → M Store (Unit {0})
  revoke_team_access collection_id team_id requesting_user_id = do
    c ← on_error (wrap "collection not found") (query (get_collection db collection_id))
    can_manage ←
        check_collection_manage_permission c.organization_id collection_id requesting_user_id
    require can_manage forbidden
    n ← on_error (wrap "failed to revoke access") (delete_team_grant db collection_id team_id)
    pure tt

  unfoldable pub get_user_access : ℕ → ℕ → M Store (List CollectionUser)
  get_user_access collection_id requesting_user_id = do
    c ← on_error (wrap "collection not found") (query (get_collection db collection_id))
    has_access ← check_collection_access c.organization_id collection_id requesting_user_id
    require has_access forbidden
    on_error (wrap "failed to get collection users")
        (query (list_collection_users db collection_id))

  unfoldable pub get_team_access : ℕ → ℕ → M Store (List CollectionTeam)
  get_team_access collection_id requesting_user_id = do
    c ← on_error (wrap "collection not found") (query (get_collection db collection_id))
    has_access ← check_collection_access c.organization_id collection_id requesting_user_id
    require has_access forbidden
    on_error (wrap "failed to get collection teams")
        (query (list_collection_teams db collection_id))

-- ===== src/Organization/Lookups.antt =====
-- What the reads of the organization service tell, and that they change nothing.
use passwall_server.Base.{
  ℕ, Bool, true, false, IsGorm, ok, M, ◌≡◌, refl, ap, Memᴰ, wrap, lift, success_map, success_value,
  lift_error_step, require-same, same_step,
}
use passwall_server.Membership.Record.{OrganizationUser}
use passwall_server.Membership.Service.{check_permission}
use passwall_server.Membership.Tables.{get_member, get_by_org_and_user}
use passwall_server.Membership.Statements.{
  member_found, membership_found, check_permission-same, check_permission-Administered,
  Administered,
}
use passwall_server.Membership.Tables
use passwall_server.Membership.Statements
use passwall_server.Organization.Tables.{
  Store, Engines, within, team_key, team_rekey, collection_key, collection_rekey,
  collection_team_key, collection_team_rekey,
}
use passwall_server.Organization.Invitations.{
  Services, check_target, check_policies, check_single_organization_policy, find_membership,
  policy_on,
}

-- The engines behave as gorm is relied on to.
pub record IsReliable (db : Engines) : Type 0 where
  pub memberships : Statements.IsReliable db.memberships
  pub teams : IsGorm team_key team_rekey db.teams
  pub collections : IsGorm collection_key collection_rekey db.collections
  pub collection_teams : IsGorm collection_team_key collection_team_rekey db.collection_teams

pub within-same :
    {A : Type 0} (m : M Tables.Store A) (s : Store)
    → (m s.memberships).1 ≡ s.memberships
    → (within m s).1 ≡ s
unfolding within
within-same m s h = ap (λ x. record s { memberships = x }) h

module _ (db : Engines) (reliable : IsReliable db) (ext : Services) where
  pub permission-same :
      (o u : ℕ) (s : Store) → (within (check_permission db.memberships o u true) s).1 ≡ s
  permission-same o u s =
      within-same (check_permission db.memberships o u true) s
        (check_permission-same db.memberships reliable.memberships o u true s.memberships)

  pub permission-Administered :
      (o u : ℕ) (s : Store) (a : Unit {0})
      → (within (check_permission db.memberships o u true) s).0 ≡ ok a
      → Administered o u s.memberships
  unfolding within
  permission-Administered o u s a h =
      success_value (λ _. Administered o u s.memberships)
        (check_permission db.memberships o u true s.memberships) a
        (success_map _ _ (check_permission db.memberships o u true s.memberships) (λ _ _ q. q.1)
          (check_permission-Administered db.memberships reliable.memberships o u s.memberships))
        h

  pub find_membership-same : (o u : ℕ) (s : Store) → (find_membership db ext o u s).1 ≡ s
  unfolding within lift
  find_membership-same o u s = refl

  pub find_membership_found :
      (o u : ℕ) (s : Store) (ou : OrganizationUser)
      → (find_membership db ext o u s).0 ≡ ok ou
      → Memᴰ ou s.memberships.members × (ou.organization_id ≡ o) × (ou.user_id ≡ u)
  unfolding within lift
  find_membership_found o u s ou h =
      membership_found db.memberships reliable.memberships o u s.memberships ou h

  pub get_member-same : (id : ℕ) (s : Store) → (within (get_member db.memberships id) s).1 ≡ s
  unfolding within lift
  get_member-same id s = refl

  pub get_member_found :
      (id : ℕ) (s : Store) (ou : OrganizationUser)
      → (within (get_member db.memberships id) s).0 ≡ ok ou
      → Memᴰ ou s.memberships.members × (ou.id ≡ id)
  unfolding within lift
  get_member_found id s ou h =
      member_found db.memberships reliable.memberships id s.memberships ou h

  check_target-same : (b : Bool) (o u : ℕ) (s : Store) → (check_target db ext b o u s).1 ≡ s
  unfolding check_target
  check_target-same false o u s = refl
  check_target-same true o u s =
      lift_error_step (λ x. x ≡ s) (wrap "failed to check existing memberships") _ _ s refl
        λ ms h. require-same _ _ s

  check_policies-same : (b : Bool) (o u : ℕ) (s : Store) → (check_policies db ext b o u s).1 ≡ s
  unfolding check_policies
  check_policies-same false o u s = refl
  check_policies-same true o u s =
      same_step (λ x. x ≡ s)
        (check_target db ext (policy_on (ext.single_organization_policy o)) o u s) _ s
        (check_target-same (policy_on (ext.single_organization_policy o)) o u s) refl
        λ _ _.
          lift_error_step (λ x. x ≡ s) (wrap "failed to check existing memberships") _ _ s refl
            λ ms h. require-same _ _ s

  pub check_single-same :
      (o u : ℕ) (s : Store) → (check_single_organization_policy db ext o u s).1 ≡ s
  unfolding check_single_organization_policy
  check_single-same o u s = check_policies-same ext.has_policies o u s

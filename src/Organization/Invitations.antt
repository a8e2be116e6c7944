-- ===== src/Organization/Invitations.antt =====
-- InviteUser, AcceptInvitation, ConfirmProvisionedMember and AddExistingMember of
-- internal/service/organization_service.go. Organizations, users, subscriptions, policies and the
-- invitation service are arguments (the repository of policies may be missing), and so are the
-- clock and the identifier that is drawn. The log, and the invitations that AcceptInvitation marks
-- as accepted after its answer is fixed, are left out.
use passwall_server.Base.{
  ℕ, Option, none, some, String, Bool, true, false, List, [], ◌∷◌, M, Error, Result, ok, err,
  str_eq, ◌==◌, ltb, ◌&&◌, not, if◌then◌else◌, ◌>>=◌, ◌>>◌, pure, require, lift, on_error, logged,
  message, wrap, forbidden, is_not_found,
}
use passwall_server.Policy.Record.{OrganizationPolicy}
use passwall_server.Membership.Record.{
  OrganizationRole, OrganizationUser, invited, accepted, confirmed, eq_owner, eq_invited,
  eq_provisioned,
}
use passwall_server.Membership.Service.{is_supported_org_role, check_permission}
use passwall_server.Membership.Tables.{get_member, get_by_org_and_user, update_member}
use passwall_server.Organization.Tables.{
  Store, Engines, within, is_active_membership, create_member, list_by_user, get_member_count,
}
use passwall_server.Organization.Defaults.{
  ensure_default_team, ensure_default_collection, ensure_default_collection_team_access,
  ensure_org_user_in_default_team,
}

pub record InviteUserToOrgRequest : Type 0 where
  pub email : String
  pub role : OrganizationRole
  pub encrypted_org_key : String
  pub access_all : Bool

-- What getMaxUsers reads of a subscription: the seats, and its plan's limit if the plan is loaded.
pub record SubscriptionLimits : Type 0 where
  pub plan : Option (Option ℕ)
  pub seats_purchased : Option ℕ

-- The other services and repositories.
pub record Services : Type 0 where
  pub is_personal : ℕ → Result Bool
  pub user_by_email : String → Result ℕ
  pub user_name : ℕ → Result String
  pub subscription : ℕ → Result SubscriptionLimits
  pub has_policies : Bool
  pub single_organization_policy : ℕ → Result OrganizationPolicy
  pub create_invitation : InviteUserToOrgRequest → ℕ → String → Result (Unit {0})

abbrev pub unlimited : ℕ
unlimited = 999_999

abbrev pub plan_limit : Option (Option ℕ) → Result ℕ
plan_limit none = err (message "subscription plan not loaded")
plan_limit (some (some n)) = ok n
plan_limit (some none) = ok unlimited

abbrev pub seats_or : Option ℕ → Option (Option ℕ) → Result ℕ
seats_or seats none = err (message "subscription plan not loaded")
seats_or none (some plan) = plan_limit (some plan)
seats_or (some n) (some plan) = if ltb 0 n then ok n else plan_limit (some plan)

abbrev pub limits_of : Result SubscriptionLimits → Result ℕ
limits_of (ok s) = seats_or s.seats_purchased s.plan
limits_of (err e) = err (wrap "failed to get subscription" e)

abbrev pub policy_on : Result OrganizationPolicy → Bool
policy_on (ok p) = p.enabled
policy_on (err e) = false

unfoldable pub active_elsewhere : ℕ → List OrganizationUser → Bool
active_elsewhere org_id [] = false
active_elsewhere org_id (m ∷ ms) =
    let rest = active_elsewhere org_id ms in
    if not (m.organization_id == org_id) && is_active_membership m.status then true else rest

abbrev pub invitee_error : Error → Error
invitee_error e =
    if is_not_found e
    then message "user not found in Passwall. Invite via 'Invite a Friend' first"
    else wrap "failed to get invitee by email" e

abbrev pub is_ok_answer {ℓ} : {A : Type ℓ} → Result A → Bool
is_ok_answer (ok a) = true
is_ok_answer (err e) = false

abbrev pub given_or_now : Option ℕ → ℕ → Option ℕ
given_or_now none now = some now
given_or_now (some t) now = some t

abbrev pub invitation : ℕ → String → ℕ → ℕ → InviteUserToOrgRequest → OrganizationUser
invitation now uuid org_id user_id req = record {
  id = 0;
  uuid = uuid;
  organization_id = org_id;
  user_id = user_id;
  role = req.role;
  encrypted_org_key = req.encrypted_org_key;
  access_all = req.access_all;
  permissions = "";
  status = invited;
  invited_at = some now;
  accepted_at = none;
  external_id = none;
}

abbrev pub accepted_by : ℕ → String → OrganizationUser → OrganizationUser
accepted_by now key ou = record ou {
  encrypted_org_key = key;
  status = accepted;
  accepted_at = some now;
}

abbrev pub confirmed_with : String → OrganizationUser → OrganizationUser
confirmed_with key ou = record ou { encrypted_org_key = key; status = confirmed }

abbrev pub stamped : ℕ → OrganizationUser → OrganizationUser
stamped now ou = record ou {
  invited_at = given_or_now ou.invited_at now;
  accepted_at = given_or_now ou.accepted_at now;
}

module _ (db : Engines) (ext : Services) where
  unfoldable pub get_max_users : ℕ → Result ℕ
  get_max_users org_id = limits_of (ext.subscription org_id)

  unfoldable pub enforced_elsewhere : ℕ → List OrganizationUser → Bool
  enforced_elsewhere org_id [] = false
  enforced_elsewhere org_id (m ∷ ms) =
      let rest = enforced_elsewhere org_id ms in
      if (not (m.organization_id == org_id) && is_active_membership m.status)
        && policy_on (ext.single_organization_policy m.organization_id)
      then true
      else rest

  unfoldable pub check_target : Bool → ℕ → ℕ → M Store (Unit {0})
  check_target false org_id user_id = pure tt
  check_target true org_id user_id = do
    memberships ← on_error (wrap "failed to check existing memberships") (list_by_user db user_id)
    require (not (active_elsewhere org_id memberships)) (
        message
          "organization policy requires single organization membership; user belongs to another organization")

  -- Nothing is checked where the service has no repository of policies.
  unfoldable pub check_policies : Bool → ℕ → ℕ → M Store (Unit {0})
  check_policies false org_id user_id = pure tt
  check_policies true org_id user_id = do
    check_target (policy_on (ext.single_organization_policy org_id)) org_id user_id
    memberships ← on_error (wrap "failed to check existing memberships") (list_by_user db user_id)
    require (not (enforced_elsewhere org_id memberships))
        (message "user's existing organization enforces single organization membership")

  unfoldable pub check_single_organization_policy : ℕ → ℕ → M Store (Unit {0})
  check_single_organization_policy org_id user_id = check_policies ext.has_policies org_id user_id

  abbrev pub find_membership : ℕ → ℕ → M Store OrganizationUser
  find_membership org_id user_id = within (get_by_org_and_user db.memberships org_id user_id)

  -- Best effort, after the membership.
  unfoldable pub ensure_defaults : ℕ → M Store (Unit {0})
  ensure_defaults org_id = logged (do
    team ← ensure_default_team db org_id
    collection ← ensure_default_collection db org_id
    ensure_default_collection_team_access db collection.id team.id)

  abbrev pub membership_answer : ℕ → ℕ → M Store Bool
  membership_answer org_id user_id s = (ok (is_ok_answer (find_membership org_id user_id s).0), s)

  unfoldable pub invite_user :
      ℕ → String → ℕ → ℕ → InviteUserToOrgRequest → M Store OrganizationUser
  invite_user now uuid org_id inviter_id req = do
    require (is_supported_org_role req.role) (message "invalid organization role")
    is_personal ← on_error (wrap "organization not found") (lift (ext.is_personal org_id))
    require (not is_personal) (message "cannot invite members to a personal vault")
    within (check_permission db.memberships org_id inviter_id true)
    inviter ← on_error (λ _. forbidden) (find_membership org_id inviter_id)
    require (not (eq_owner req.role && not (eq_owner inviter.role))) forbidden
    member_count ← on_error (wrap "failed to get member count") (get_member_count db org_id)
    max_users ← on_error (wrap "failed to get plan limits") (lift (get_max_users org_id))
    require (ltb member_count max_users) (message "organization has reached max users limit")
    invitee ← on_error invitee_error (lift (ext.user_by_email req.email))
    known ← membership_answer org_id invitee
    require (not known) (message "user is already a member of this organization")
    check_single_organization_policy org_id invitee
    inviter_name ← on_error (wrap "failed to get inviter info") (lift (ext.user_name inviter_id))
    on_error (wrap "failed to create invitation")
        (lift (ext.create_invitation req inviter_id inviter_name))
    org_user ←
        on_error (wrap "failed to invite user")
          (create_member db (invitation now uuid org_id invitee req))
    in_team ←
        on_error (wrap "failed to ensure default team membership")
          (ensure_org_user_in_default_team db org_id org_user.id)
    ensure_defaults org_id
    pure org_user

  unfoldable pub accept_invitation : ℕ → ℕ → ℕ → String → M Store (Unit {0})
  accept_invitation now org_user_id user_id key = do
    require (not (str_eq key "")) (message "encrypted_org_key is required")
    org_user ←
        on_error (wrap "invitation not found") (within (get_member db.memberships org_user_id))
    require (org_user.user_id == user_id) forbidden
    require (eq_invited org_user.status) (message "invitation already processed")
    check_single_organization_policy org_user.organization_id user_id
    on_error (wrap "failed to accept invitation")
        (within (update_member db.memberships (accepted_by now key org_user)))
    in_team ←
        on_error (wrap "failed to ensure default team membership")
          (ensure_org_user_in_default_team db org_user.organization_id org_user.id)
    pure tt

  unfoldable pub confirm_provisioned_member : ℕ → ℕ → ℕ → String → M Store (Unit {0})
  confirm_provisioned_member org_id org_user_id requesting_user_id key = do
    require (not (str_eq key "")) (message "encrypted_org_key is required")
    within (check_permission db.memberships org_id requesting_user_id true)
    org_user ← on_error (wrap "member not found") (within (get_member db.memberships org_user_id))
    require (org_user.organization_id == org_id) forbidden
    require (eq_provisioned org_user.status) (message "member is not in provisioned status")
    on_error (wrap "failed to confirm provisioned member")
        (within (update_member db.memberships (confirmed_with key org_user)))
    in_team ←
        on_error (wrap "failed to ensure default team membership")
          (ensure_org_user_in_default_team db org_id org_user.id)
    pure tt

  -- A pending invitation is accepted, with the role and the access of the invitation.
  unfoldable pub add_found : ℕ → OrganizationUser → Result OrganizationUser → M Store (Unit {0})
  add_found now org_user (ok existing) = do
    require (eq_invited existing.status) (message "user is already a member of this organization")
    on_error (wrap "failed to accept existing invitation") (
        within (update_member db.memberships (accepted_by now org_user.encrypted_org_key existing)))
  add_found now org_user (err e) = do
    created ← on_error (wrap "failed to add member") (create_member db (stamped now org_user))
    in_team ←
        on_error (wrap "failed to ensure default team membership")
          (ensure_org_user_in_default_team db created.organization_id created.id)
    pure tt

  abbrev pub answer_of : ℕ → ℕ → M Store (Result OrganizationUser)
  answer_of org_id user_id s = (ok (find_membership org_id user_id s).0, s)

  unfoldable pub add_existing_member : ℕ → OrganizationUser → M Store (Unit {0})
  add_existing_member now org_user = do
    require (not (str_eq org_user.encrypted_org_key "")) (message "encrypted_org_key is required")
    is_personal ←
        on_error (wrap "organization not found") (lift (ext.is_personal org_user.organization_id))
    require (not is_personal) (message "cannot add members to a personal vault")
    existing ← answer_of org_user.organization_id org_user.user_id
    add_found now org_user existing

-- ===== src/Enforcement/Gates.antt =====
-- The checks of internal/service/policy_enforcement.go, over what the policy service answers.
use passwall_server.Base.{
  ℕ, Option, none, some, String, Bool, ◌||◌, ◌&&◌, not, if◌then◌else◌, Error, message, Result, ok,
  err,
}
use passwall_server.Membership.Record.{OrganizationRole, eq_owner, eq_admin}
use passwall_server.Policy.Catalog.{
  require_two_factor, disable_external_sharing, disable_personal_export, remove_send,
  remove_card_type, disable_personal_vault, master_password_requirements, password_generator,
  session_timeout, password_expiration,
}
use passwall_server.Policy.Record.{PolicyData}
use passwall_server.Enforcement.Parsers.{
  MasterPasswordPolicy, PasswordGeneratorPolicy, SessionTimeoutPolicy, PasswordExpirationPolicy,
  parse_master_password_policy, parse_password_generator_policy, parse_session_timeout_policy,
  parse_password_expiration_policy,
}

-- IsPolicyEnabled and GetPolicyData of the policy service.
pub record PolicyReads : Type 0 where
  pub is_policy_enabled : ℕ → String → Result Bool
  pub get_policy_data : ℕ → String → Result (Option PolicyData)

-- `if err != nil { return err }; if enabled { return refusal }; return nil`.
abbrev pub refuse_if : Error → Result Bool → Result (Unit {0})
refuse_if refusal (err e) = err e
refuse_if refusal (ok enabled) = if enabled then err refusal else ok tt

abbrev pub parsed {ℓ} :
    {A : Type ℓ} → (PolicyData → A) → Result (Option PolicyData) → Result (Option A)
parsed f (err e) = err e
parsed f (ok none) = ok none
parsed f (ok (some d)) = ok (some (f d))

abbrev pub is_exempt : OrganizationRole → Bool
is_exempt role = eq_owner role || eq_admin role

module _ (reads : PolicyReads) where
  unfoldable pub check_two_factor_required : ℕ → Bool → Result (Unit {0})
  check_two_factor_required org_id user_has_2fa =
      elim (reads.is_policy_enabled org_id require_two_factor) [
        | err e ↦ err e
        | ok enabled ↦
            if enabled && not user_has_2fa
            then err (message "organization policy requires two-factor authentication")
            else ok tt
      ]

  unfoldable pub get_master_password_requirements : ℕ → Result (Option MasterPasswordPolicy)
  get_master_password_requirements org_id =
      parsed parse_master_password_policy
        (reads.get_policy_data org_id master_password_requirements)

  unfoldable pub get_password_generator_requirements : ℕ → Result (Option PasswordGeneratorPolicy)
  get_password_generator_requirements org_id =
      parsed parse_password_generator_policy (reads.get_policy_data org_id password_generator)

  unfoldable pub check_external_sharing_allowed : ℕ → Result (Unit {0})
  check_external_sharing_allowed org_id =
      refuse_if (message "organization policy prohibits sharing outside the organization")
        (reads.is_policy_enabled org_id disable_external_sharing)

  unfoldable pub check_personal_export_allowed : ℕ → OrganizationRole → Result (Unit {0})
  check_personal_export_allowed org_id role =
      if is_exempt role
      then ok tt
      else refuse_if (message "organization policy prohibits personal vault export")
          (reads.is_policy_enabled org_id disable_personal_export)

  unfoldable pub check_send_allowed : ℕ → OrganizationRole → Result (Unit {0})
  check_send_allowed org_id role =
      if is_exempt role
      then ok tt
      else refuse_if (message "organization policy prohibits creating Sends")
          (reads.is_policy_enabled org_id remove_send)

  unfoldable pub get_session_timeout_policy : ℕ → Result (Option SessionTimeoutPolicy)
  get_session_timeout_policy org_id =
      parsed parse_session_timeout_policy (reads.get_policy_data org_id session_timeout)

  unfoldable pub check_card_type_allowed : ℕ → Result (Unit {0})
  check_card_type_allowed org_id =
      refuse_if (message "organization policy prohibits credit card items")
        (reads.is_policy_enabled org_id remove_card_type)

  unfoldable pub check_personal_vault_allowed : ℕ → OrganizationRole → Result (Unit {0})
  check_personal_vault_allowed org_id role =
      if is_exempt role
      then ok tt
      else refuse_if
          (message
            "organization policy requires all items to be stored in organization collections")
          (reads.is_policy_enabled org_id disable_personal_vault)

  unfoldable pub get_password_expiration_policy : ℕ → Result (Option PasswordExpirationPolicy)
  get_password_expiration_policy org_id =
      parsed parse_password_expiration_policy (reads.get_policy_data org_id password_expiration)

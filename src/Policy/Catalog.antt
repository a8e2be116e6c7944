-- ===== src/Policy/Catalog.antt =====
-- The catalog of policies (internal/domain/organization_policy.go). A policy type is a string.
-- Names, descriptions and categories, which only the clients show, are left out.
use passwall_server.Base.{
  String, Bool, true, false, Option, none, some, List, [], ◌∷◌, str_eq, if◌then◌else◌,
}
use passwall_server.Plan.Code.{PolicyTier, no_tier, team, business}

abbrev pub require_two_factor : String
require_two_factor = "require_two_factor"

abbrev pub require_sso : String
require_sso = "require_sso"

abbrev pub master_password_requirements : String
master_password_requirements = "master_password_requirements"

abbrev pub session_timeout : String
session_timeout = "session_timeout"

abbrev pub remove_pin_unlock : String
remove_pin_unlock = "remove_pin_unlock"

abbrev pub failed_login_limit : String
failed_login_limit = "failed_login_limit"

abbrev pub account_recovery : String
account_recovery = "account_recovery"

abbrev pub single_organization : String
single_organization = "single_organization"

abbrev pub disable_personal_export : String
disable_personal_export = "disable_personal_export"

abbrev pub enforce_data_ownership : String
enforce_data_ownership = "enforce_data_ownership"

abbrev pub remove_card_type : String
remove_card_type = "remove_card_type"

abbrev pub disable_external_sharing : String
disable_external_sharing = "disable_external_sharing"

abbrev pub password_generator : String
password_generator = "password_generator"

abbrev pub activate_autofill : String
activate_autofill = "activate_autofill"

abbrev pub default_uri_match : String
default_uri_match = "default_uri_match"

abbrev pub require_autofill_confirmation : String
require_autofill_confirmation = "require_autofill_confirmation"

abbrev pub require_browser_extension : String
require_browser_extension = "require_browser_extension"

abbrev pub firewall_rules : String
firewall_rules = "firewall_rules"

abbrev pub block_domain_account_creation : String
block_domain_account_creation = "block_domain_account_creation"

abbrev pub send_options : String
send_options = "send_options"

abbrev pub remove_send : String
remove_send = "remove_send"

abbrev pub disable_personal_vault : String
disable_personal_vault = "disable_personal_vault"

abbrev pub password_expiration : String
password_expiration = "password_expiration"

abbrev pub require_device_approval : String
require_device_approval = "require_device_approval"

pub record PolicyDefinition : Type 0 where
  pub type : String
  pub tier : PolicyTier
  pub dependencies : List String

abbrev plain : String → PolicyTier → PolicyDefinition
plain t tier = record { type = t; tier = tier; dependencies = [] }

abbrev needs : String → PolicyTier → String → PolicyDefinition
needs t tier dep = record { type = t; tier = tier; dependencies = dep ∷ [] }

unfoldable pub all_policy_definitions : List PolicyDefinition
all_policy_definitions =
    plain require_two_factor team
    ∷ needs require_sso business single_organization
    ∷ plain master_password_requirements team
    ∷ needs session_timeout business single_organization
    ∷ plain remove_pin_unlock business
    ∷ plain failed_login_limit business
    ∷ needs account_recovery business single_organization
    ∷ plain single_organization business
    ∷ plain disable_personal_export business
    ∷ plain enforce_data_ownership business
    ∷ plain remove_card_type business
    ∷ plain disable_external_sharing team
    ∷ plain password_generator team
    ∷ plain activate_autofill business
    ∷ needs default_uri_match business single_organization
    ∷ plain require_autofill_confirmation business
    ∷ plain require_browser_extension team
    ∷ plain firewall_rules business
    ∷ plain block_domain_account_creation business
    ∷ plain send_options business
    ∷ plain remove_send business
    ∷ needs disable_personal_vault business single_organization
    ∷ plain password_expiration business
    ∷ plain require_device_approval business
    ∷ []

-- The maps that `init` fills from the catalog, each type once.
find_definition : String → List PolicyDefinition → Option PolicyDefinition
find_definition t [] = none
find_definition t (d ∷ ds) = if str_eq d.type t then some d else find_definition t ds

unfoldable pub get_policy_tier : String → PolicyTier × Bool
unfolding find_definition all_policy_definitions
get_policy_tier t = elim (find_definition t all_policy_definitions) [
  | none ↦ (no_tier, false)
  | some d ↦ (d.tier, true)
]

unfoldable pub get_policy_dependencies : String → List String
unfolding find_definition all_policy_definitions
get_policy_dependencies t = elim (find_definition t all_policy_definitions) [
  | none ↦ []
  | some d ↦ d.dependencies
]

unfoldable pub is_valid_policy_type : String → Bool
unfolding get_policy_tier
is_valid_policy_type t = (get_policy_tier t).1

-- ===== src/Enforcement/Parsers.antt =====
-- The settings of a policy, read from its data (internal/service/policy_enforcement.go). A key that
-- is missing or holds a value of another type leaves the default. `int` takes the whole part of a
-- number; settings are natural numbers here, so that a negative one reads as 0.
use passwall_server.Base.{ℕ, Option, some, String, Bool, false, ltb, if◌then◌else◌}
use passwall_server.Policy.Record.{Value, number, decimal, flag, text, PolicyData, lookup}

unfoldable pub number_at : String → PolicyData → ℕ
number_at k d = elim (lookup k d) [ some (number n) ↦ n | some (decimal n s) ↦ n | _ ↦ 0 ]

unfoldable pub flag_at : String → PolicyData → Bool
flag_at k d = elim (lookup k d) [ some (flag b) ↦ b | _ ↦ false ]

unfoldable pub text_at : String → PolicyData → String
text_at k d = elim (lookup k d) [ some (text t) ↦ t | _ ↦ "" ]

pub record MasterPasswordPolicy : Type 0 where
  pub min_length : ℕ
  pub require_uppercase : Bool
  pub require_lowercase : Bool
  pub require_numbers : Bool
  pub require_special : Bool
  pub min_special_count : ℕ
  pub min_complexity : ℕ
  pub require_existing_change : Bool

pub record PasswordGeneratorPolicy : Type 0 where
  pub default_type : String
  pub min_length : ℕ
  pub require_uppercase : Bool
  pub require_lowercase : Bool
  pub require_numbers : Bool
  pub require_special : Bool
  pub min_special_count : ℕ
  pub min_number_count : ℕ
  pub passphrase_min_words : ℕ
  pub passphrase_capitalize : Bool
  pub passphrase_include_number : Bool

pub record SessionTimeoutPolicy : Type 0 where
  pub max_timeout_minutes : ℕ
  pub timeout_action : String

pub record PasswordExpirationPolicy : Type 0 where
  pub max_age_days : ℕ

abbrev pub parse_master_password_policy : PolicyData → MasterPasswordPolicy
parse_master_password_policy d = record {
  min_length = number_at "min_length" d;
  require_uppercase = flag_at "require_uppercase" d;
  require_lowercase = flag_at "require_lowercase" d;
  require_numbers = flag_at "require_numbers" d;
  require_special = flag_at "require_special" d;
  min_special_count = number_at "min_special_count" d;
  min_complexity = number_at "min_complexity" d;
  require_existing_change = flag_at "require_existing_change" d;
}

abbrev pub parse_password_generator_policy : PolicyData → PasswordGeneratorPolicy
parse_password_generator_policy d = record {
  default_type = text_at "type" d;
  min_length = number_at "min_length" d;
  require_uppercase = flag_at "require_uppercase" d;
  require_lowercase = flag_at "require_lowercase" d;
  require_numbers = flag_at "require_numbers" d;
  require_special = flag_at "require_special" d;
  min_special_count = number_at "min_special_count" d;
  min_number_count = number_at "min_number_count" d;
  passphrase_min_words = number_at "passphrase_min_words" d;
  passphrase_capitalize = flag_at "passphrase_capitalize" d;
  passphrase_include_number = flag_at "passphrase_include_number" d;
}

abbrev pub parse_session_timeout_policy : PolicyData → SessionTimeoutPolicy
parse_session_timeout_policy d = record {
  max_timeout_minutes = number_at "max_timeout_minutes" d;
  timeout_action = text_at "timeout_action" d;
}

abbrev pub positive_number_or : ℕ → Option Value → ℕ
positive_number_or default (some (number n)) = if ltb 0 n then n else default
positive_number_or default (some (decimal n s)) = n
positive_number_or default _ = default

abbrev pub parse_password_expiration_policy : PolicyData → PasswordExpirationPolicy
parse_password_expiration_policy d = record {
  max_age_days = positive_number_or 90 (lookup "max_age_days" d);
}

-- ===== src/Tests/Kdf.antt =====
-- The default settings of the key derivation.
use passwall_server.Base.{ok, ◌≡◌, ◌↔◌, refl}
use passwall_server.Kdf.Config.{
  new_default_kdf_config, new_argon2_kdf_config, validate, validate_pbkdf2, validate_argon2,
  validate_argon2_pointers, validate_argon2_values, validate_for_prelogin,
}
use passwall_server.Kdf.Bounds.{WithinLimits, validate_iff, validate-prelogin}

validate_default : validate new_default_kdf_config ≡ ok tt
unfolding validate validate_pbkdf2
validate_default = refl

validate_argon2_default : validate new_argon2_kdf_config ≡ ok tt
unfolding validate validate_argon2 validate_argon2_pointers validate_argon2_values
validate_argon2_default = refl

validate_iff_example : (validate new_argon2_kdf_config ≡ ok tt) ↔ WithinLimits new_argon2_kdf_config
validate_iff_example = validate_iff new_argon2_kdf_config

validate-prelogin_example : validate_for_prelogin new_default_kdf_config ≡ ok tt
validate-prelogin_example = validate-prelogin new_default_kdf_config validate_default

-- ===== src/Kdf/Config.antt =====
-- The settings of the key derivation and their validation (internal/domain/kdf_config.go). The
-- counts are natural numbers; a negative one is below every minimum, as 0 is.
use passwall_server.Base.{
  ℕ, Option, none, some, String, Bool, false, ltb, ◌==◌, ◌||◌, ◌&&◌, if◌then◌else◌, message, Result,
  ok, err,
}

abbrev pub KdfType : Type 0
KdfType = ℕ

abbrev pub pbkdf2 : KdfType
pbkdf2 = 0

abbrev pub argon2id : KdfType
argon2id = 1

pub record KdfConfig : Type 0 where
  pub kind : KdfType
  pub iterations : ℕ
  pub memory : Option ℕ
  pub parallelism : Option ℕ
  pub salt : String

abbrev pub pbkdf2_min_iterations : ℕ
pbkdf2_min_iterations = 600_000

abbrev pub pbkdf2_default_iterations : ℕ
pbkdf2_default_iterations = 600_000

abbrev pub pbkdf2_max_iterations : ℕ
pbkdf2_max_iterations = 2_000_000

abbrev pub argon2_default_iterations : ℕ
argon2_default_iterations = 3

abbrev pub argon2_default_memory : ℕ
argon2_default_memory = 64

abbrev pub argon2_default_parallelism : ℕ
argon2_default_parallelism = 4

abbrev pub argon2_min_iterations : ℕ
argon2_min_iterations = 2

abbrev pub argon2_max_iterations : ℕ
argon2_max_iterations = 10

abbrev pub argon2_min_memory : ℕ
argon2_min_memory = 16

abbrev pub argon2_max_memory : ℕ
argon2_max_memory = 1024

abbrev pub argon2_min_parallelism : ℕ
argon2_min_parallelism = 1

abbrev pub argon2_max_parallelism : ℕ
argon2_max_parallelism = 16

abbrev pub new_default_kdf_config : KdfConfig
new_default_kdf_config = record {
  kind = pbkdf2;
  iterations = pbkdf2_default_iterations;
  memory = none;
  parallelism = none;
  salt = "";
}

abbrev pub new_argon2_kdf_config : KdfConfig
new_argon2_kdf_config = record {
  kind = argon2id;
  iterations = argon2_default_iterations;
  memory = some argon2_default_memory;
  parallelism = some argon2_default_parallelism;
  salt = "";
}

unfoldable pub validate_pbkdf2 : KdfConfig → Result (Unit {0})
validate_pbkdf2 c =
    if ltb c.iterations pbkdf2_min_iterations
    then err (message "PBKDF2 iterations too low (minimum 600,000)")
    else if ltb pbkdf2_max_iterations c.iterations
    then err (message "PBKDF2 iterations too high (maximum 2,000,000)")
    else ok tt

-- The part of validateArgon2 after the tests for nil.
unfoldable pub validate_argon2_values : ℕ → ℕ → ℕ → Result (Unit {0})
validate_argon2_values iterations memory parallelism =
    if ltb iterations argon2_min_iterations || ltb argon2_max_iterations iterations
    then err (message "Argon2 iterations must be between 2 and 10")
    else if ltb memory argon2_min_memory || ltb argon2_max_memory memory
    then err (message "Argon2 memory must be between 16 MB and 1024 MB")
    else if ltb parallelism argon2_min_parallelism || ltb argon2_max_parallelism parallelism
    then err (message "Argon2 parallelism must be between 1 and 16")
    else ok tt

unfoldable pub validate_argon2_pointers : ℕ → Option ℕ → Option ℕ → Result (Unit {0})
validate_argon2_pointers iterations none p = err (message "Argon2 memory is required")
validate_argon2_pointers iterations (some m) none = err (message "Argon2 parallelism is required")
validate_argon2_pointers iterations (some m) (some p) = validate_argon2_values iterations m p

unfoldable pub validate_argon2 : KdfConfig → Result (Unit {0})
validate_argon2 c = validate_argon2_pointers c.iterations c.memory c.parallelism

unfoldable pub validate : KdfConfig → Result (Unit {0})
validate c =
    if c.kind == pbkdf2
    then validate_pbkdf2 c
    else if c.kind == argon2id
    then validate_argon2 c
    else err (message "unsupported KDF type")

-- `p != nil && *p < minimum`.
abbrev pub known_below : Option ℕ → ℕ → Bool
known_below none minimum = false
known_below (some n) minimum = ltb n minimum

unfoldable pub validate_for_prelogin : KdfConfig → Result (Unit {0})
validate_for_prelogin c =
    if (c.kind == pbkdf2) && ltb c.iterations pbkdf2_min_iterations
    then err (message "possible KDF downgrade attack detected")
    else if (c.kind == argon2id)
        && (ltb c.iterations argon2_min_iterations
            || (known_below c.memory argon2_min_memory
                || known_below c.parallelism argon2_min_parallelism))
    then err (message "possible KDF downgrade attack detected")
    else ok tt

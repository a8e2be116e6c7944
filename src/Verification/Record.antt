-- ===== src/Verification/Record.antt =====
-- The records and tables of email verification: internal/domain/verification_code.go,
-- internal/repository/gormrepo/verification.go, and of users the columns that it reads and writes
-- (internal/repository/gormrepo/user.go). Times are numbers of seconds.
use passwall_server.Base.{
  Error, not_found, record_not_found, ℕ, String, Bool, List, M, Gorm, Result, ok, err, str_eq, ltb,
  ◌&&◌, query, commit, commit_value, map_error, translate, logged, ◌>>◌,
}

pub record VerificationCode : Type 0 where
  pub id : ℕ
  pub email : String
  pub code : String
  pub expires_at : ℕ

pub record User : Type 0 where
  pub id : ℕ
  pub email : String
  pub is_verified : Bool

abbrev pub key : VerificationCode → ℕ
key c = c.id

abbrev pub rekey : ℕ → VerificationCode → VerificationCode
rekey k c = record c { id = k }

abbrev pub user_key : User → ℕ
user_key u = u.id

abbrev pub user_rekey : ℕ → User → User
user_rekey k u = record u { id = k }

-- `time.Now().After(v.ExpiresAt)`.
abbrev pub is_expired : ℕ → VerificationCode → Bool
is_expired now c = ltb c.expires_at now

pub record Store : Type 0 where
  pub codes : List VerificationCode
  pub users : List User

pub record Engines : Type 0 where
  pub codes : Gorm VerificationCode
  pub users : Gorm User

-- `err == gorm.ErrRecordNotFound`, without looking through a wrapping.
abbrev pub code_error : Error → Error
code_error record_not_found = not_found
code_error e = e

-- What a statement on one of the tables gives, for the store.
unfoldable pub with_codes :
    {A : Type 0} → Store → Result (A × List VerificationCode) → Result (A × Store)
with_codes s (ok (a, t)) = ok (a, record s { codes = t })
with_codes s (err e) = err e

unfoldable pub with_users : Store → Result (List User) → Result Store
with_users s (ok t) = ok (record s { users = t })
with_users s (err e) = err e

module _ (db : Engines) where
  abbrev pub delete_by_email : String → M Store ℕ
  delete_by_email email s =
      commit_value (with_codes s (db.codes.delete_where (λ c. str_eq c.email email) s.codes)) s

  abbrev pub insert_code : VerificationCode → M Store VerificationCode
  insert_code c s = commit_value (with_codes s (db.codes.create c s.codes)) s

  -- The codes of the email go first.
  abbrev pub create : VerificationCode → M Store VerificationCode
  create c = logged (delete_by_email c.email) >> insert_code c

  abbrev pub get_by_email_and_code : String → String → M Store VerificationCode
  get_by_email_and_code email code = query λ s.
      map_error code_error
        (db.codes.first (λ c. str_eq c.email email && str_eq c.code code) s.codes)

  abbrev pub delete_expired : ℕ → M Store ℕ
  delete_expired now s =
      commit_value (with_codes s (db.codes.delete_where (λ c. ltb c.expires_at now) s.codes)) s

  -- `lower` is the LOWER of the database.
  abbrev pub get_by_email : (String → String) → String → M Store User
  get_by_email lower email =
      query λ s.
        map_error translate (db.users.first (λ u. str_eq (lower u.email) (lower email)) s.users)

  abbrev pub update_user : User → M Store (Unit {0})
  update_user u s = commit (with_users s (db.users.save u s.users)) s

-- ===== src/Verification/Service.antt =====
-- internal/service/verification.go. A request is given the clock; the drawn code, strings.ToLower
-- and the database's LOWER are arguments; the log is left out.
use passwall_server.Base.{
  ℕ, ◌+◌, String, Bool, true, false, M, Error, Result, message, wrap, not_found, is_not_found,
  if◌then◌else◌, ◌>>=◌, ◌>>◌, pure, fail, lift, require, on_error, logged, not,
}
use passwall_server.Verification.Record.{
  User, Store, Engines, is_expired, create, get_by_email_and_code, delete_by_email, delete_expired,
  get_by_email, update_user,
}

abbrev pub verification_code_expiry : ℕ
verification_code_expiry = 900

abbrev pub code_expired : Error
code_expired = message "verification code has expired"

abbrev pub code_invalid : Error
code_invalid = message "verification code is invalid"

abbrev pub verify_error : Error → Error
verify_error e = if is_not_found e then code_invalid else wrap "failed to verify code" e

abbrev pub resend_error : Error → Error
resend_error e = if is_not_found e then not_found else wrap "failed to get user" e

module _ (db : Engines) (to_lower lower : String → String) where
  unfoldable pub generate_code : ℕ → Result String → String → M Store String
  generate_code now drawn email = do
    code ← on_error (wrap "failed to generate code") (lift drawn)
    saved ← on_error (wrap "failed to save verification code") (
        create db (record {
          id = 0;
          email = to_lower email;
          code = code;
          expires_at = now + verification_code_expiry;
        }))
    pure code

  -- What follows once the user is read.
  unfoldable pub mark_verified : Bool → User → String → M Store (Unit {0})
  mark_verified true user email = logged (delete_by_email db email) >> pure tt
  mark_verified false user email = do
    on_error (wrap "failed to update user") (update_user db (record user { is_verified = true }))
    logged (delete_by_email db email)
    pure tt

  unfoldable pub verify_live : Bool → String → M Store (Unit {0})
  verify_live true email = logged (delete_by_email db email) >> fail code_expired
  verify_live false email = do
    user ← on_error (wrap "failed to get user") (get_by_email db lower email)
    mark_verified user.is_verified user email

  unfoldable pub verify_code : ℕ → String → String → M Store (Unit {0})
  verify_code now given code = do
    let email = to_lower given
    verification_code ← on_error verify_error (get_by_email_and_code db email code)
    verify_live (is_expired now verification_code) email

  unfoldable pub resend_code : ℕ → Result String → String → M Store String
  resend_code now drawn given = do
    let email = to_lower given
    user ← on_error resend_error (get_by_email db lower email)
    require (not user.is_verified) (message "email already verified")
    generate_code now drawn email

  unfoldable pub cleanup_expired_codes : ℕ → M Store (Unit {0})
  cleanup_expired_codes now = delete_expired db now >>= λ n. pure tt

-- ===== src/Send/Service.antt =====
-- internal/service/send_service.go. A request is given the clock and what it draws (`uuid.New`, the
-- access identifier from random bytes) as arguments; bcrypt, strings.TrimSpace, the repositories of
-- policies and memberships, and users are arguments of the service. The email of NotifyRecipient
-- and the log are left out.
use passwall_server.Base.{
  ℕ, ◌+◌, Option, none, some, String, Bool, true, false, M, Gorm, str_eq, ◌==◌, ltb, ◌||◌, not,
  Result, ok, err, ◌>>=◌, ◌>>◌, pure, require, lift, on_error, logged, not_found, forbidden,
  invalid_input, wrap, if◌then◌else◌,
}
use passwall_server.Membership.Record.{OrganizationUser, eq_owner, eq_admin}
use passwall_server.Policy.Record.{OrganizationPolicy}
use passwall_server.Send.Record.{
  Send, SendAccessDto, Table, is_expired, is_access_limit_reached, has_password, create,
  get_by_uuid, find_by_access_id, list_by_creator, save, soft_delete, increment_access_count,
  delete_expired,
}

pub record CreateSendRequest : Type 0 where
  pub name : String
  pub organization_id : ℕ
  pub type : String
  pub data_text : String
  pub notes : Option String
  pub password : Option String
  pub max_access_count : Option ℕ
  pub expiration_date : Option ℕ
  pub deletion_date : Option ℕ
  pub hide_email : Bool

pub record UpdateSendRequest : Type 0 where
  pub name : Option String
  pub data_text : Option String
  pub notes : Option String
  pub password : Option String
  pub max_access_count : Option ℕ
  pub expiration_date : Option ℕ
  pub deletion_date : Option ℕ
  pub disabled : Option Bool
  pub hide_email : Option Bool

-- What the service calls and is not code of the sends.
pub record Services : Type 0 where
  pub trim_space : String → String
  pub hash_password : String → Result String
  pub compare_password : String → String → Bool
  pub creators : ℕ → Result (Option String)
  pub remove_send_policy : ℕ → Result OrganizationPolicy
  pub members : ℕ → ℕ → Result OrganizationUser

-- `if p != nil { x = *p }`, and the same for a field that is itself a pointer.
abbrev pub given {ℓ} : {A : Type ℓ} → Option A → A → A
given none a = a
given (some b) a = b

abbrev pub given_option {ℓ} : {A : Type ℓ} → Option A → Option A → Option A
given_option none a = a
given_option (some b) a = some b

abbrev pub week : ℕ
week = 604_800

abbrev pub email_or_empty : Option String → String
email_or_empty none = ""
email_or_empty (some email) = email

abbrev pub shown_email : Send → Option String → String
shown_email s creator = if s.hide_email then "" else email_or_empty creator

abbrev pub new_send : ℕ → String → ℕ → CreateSendRequest → String → Option String → Send
new_send now uuid creator_id req access_id password = record {
  id = 0;
  uuid = uuid;
  deleted_at = none;
  access_id = access_id;
  creator_id = creator_id;
  organization_id = req.organization_id;
  name = req.name;
  type = if str_eq req.type "" then "text" else req.type;
  data_text = req.data_text;
  notes = req.notes;
  password = password;
  max_access_count = req.max_access_count;
  access_count = 0;
  expiration_date = req.expiration_date;
  deletion_date = given req.deletion_date (now + week);
  disabled = false;
  hide_email = req.hide_email;
}

abbrev pub dto_of : Send → Option String → Option (String × Option String) → SendAccessDto
dto_of s creator none = record {
  access_id = s.access_id;
  name = s.name;
  type = s.type;
  data_text = "";
  notes = none;
  creator_email = shown_email s creator;
  with_password = has_password s;
  expiration_date = s.expiration_date;
}
dto_of s creator (some (text, notes)) = record {
  access_id = s.access_id;
  name = s.name;
  type = s.type;
  data_text = text;
  notes = notes;
  creator_email = shown_email s creator;
  with_password = has_password s;
  expiration_date = s.expiration_date;
}

abbrev pub updated : UpdateSendRequest → Option String → Send → Send
updated req password s = record s {
  name = given req.name s.name;
  data_text = given req.data_text s.data_text;
  notes = given_option req.notes s.notes;
  max_access_count = given_option req.max_access_count s.max_access_count;
  expiration_date = given_option req.expiration_date s.expiration_date;
  deletion_date = given req.deletion_date s.deletion_date;
  disabled = given req.disabled s.disabled;
  hide_email = given req.hide_email s.hide_email;
  password = password;
}

module _ (ext : Services) where
  abbrev pub password_matches : Option String → String → Bool
  password_matches none given_password = true
  password_matches (some h) given_password =
      if str_eq h "" then true else ext.compare_password h given_password

  abbrev pub exempt : Result OrganizationUser → Result (Unit {0})
  exempt (err e) = err forbidden
  exempt (ok ou) = if eq_owner ou.role || eq_admin ou.role then ok tt else err forbidden

  unfoldable pub check_remove_send_policy : Result OrganizationPolicy → ℕ → ℕ → Result (Unit {0})
  check_remove_send_policy (err e) org_id user_id = ok tt
  check_remove_send_policy (ok policy) org_id user_id =
      if policy.enabled then exempt (ext.members org_id user_id) else ok tt

  abbrev pub check_create_policy : ℕ → ℕ → Result (Unit {0})
  check_create_policy org_id user_id =
      if ltb 0 org_id
      then check_remove_send_policy (ext.remove_send_policy org_id) org_id user_id
      else ok tt

  abbrev pub hashed : String → Result (Option String)
  hashed password = elim (ext.hash_password password) [
    | ok h ↦ ok (some h)
    | err e ↦ err (wrap "failed to hash password" e)
  ]

  -- The hash of a password that is given and not empty.
  abbrev pub password_for_create : Option String → Result (Option String)
  password_for_create none = ok none
  password_for_create (some p) = if str_eq p "" then ok none else hashed p

  abbrev pub password_for_update : Option String → Option String → Result (Option String)
  password_for_update none old = ok old
  password_for_update (some p) old = if str_eq p "" then ok none else hashed p

module _ (db : Gorm Send) (ext : Services) where
  unfoldable pub create_send : ℕ → String → Result String → ℕ → CreateSendRequest → M Table Send
  create_send now uuid drawn creator_id req = do
    require (not (str_eq (ext.trim_space req.name) "")) invalid_input
    require (not (str_eq (ext.trim_space req.data_text) "")) invalid_input
    lift (check_create_policy ext req.organization_id creator_id)
    access_id ← on_error (wrap "failed to generate access ID") (lift drawn)
    password ← lift (password_for_create ext req.password)
    on_error (wrap "failed to create send")
        (create db (new_send now uuid creator_id req access_id password))

  -- The payload is withheld until a password is verified.
  unfoldable pub release : Bool → Send → Option String → M Table SendAccessDto
  release true s creator = pure (dto_of s creator none)
  release false s creator = do
    logged (increment_access_count db s.id)
    pure (dto_of s creator (some (s.data_text, s.notes)))

  unfoldable pub get_by_access_id : ℕ → String → M Table SendAccessDto
  get_by_access_id now access_id = do
    loaded ← find_by_access_id db ext.creators access_id
    require (not loaded.0.disabled) not_found
    require (not (is_expired now loaded.0)) not_found
    require (not (is_access_limit_reached loaded.0)) not_found
    release (has_password loaded.0) loaded.0 loaded.1

  unfoldable pub verify_send_password : ℕ → String → String → M Table SendAccessDto
  verify_send_password now access_id password = do
    loaded ← find_by_access_id db ext.creators access_id
    require
        (not (loaded.0.disabled || (is_expired now loaded.0 || is_access_limit_reached loaded.0)))
        not_found
    require (password_matches ext loaded.0.password password) forbidden
    logged (increment_access_count db loaded.0.id)
    pure (dto_of loaded.0 loaded.1 (some (loaded.0.data_text, loaded.0.notes)))

  unfoldable pub get_own : ℕ → String → M Table Send
  get_own creator_id uuid = do
    loaded ← get_by_uuid db ext.creators uuid
    require (loaded.0.creator_id == creator_id) forbidden
    pure loaded.0

  unfoldable pub list_own : ℕ → M Table Table
  list_own creator_id = list_by_creator db creator_id

  unfoldable pub update_send : ℕ → String → UpdateSendRequest → M Table Send
  update_send creator_id uuid req = do
    loaded ← get_by_uuid db ext.creators uuid
    require (loaded.0.creator_id == creator_id) forbidden
    password ← lift (password_for_update ext req.password loaded.0.password)
    on_error (wrap "failed to update send") (save db (updated req password loaded.0))
    pure (updated req password loaded.0)

  unfoldable pub delete_send : ℕ → ℕ → String → M Table (Unit {0})
  delete_send now creator_id uuid = do
    loaded ← get_by_uuid db ext.creators uuid
    require (loaded.0.creator_id == creator_id) forbidden
    soft_delete db now loaded.0.id

  unfoldable pub cleanup_expired : ℕ → M Table ℕ
  cleanup_expired now = delete_expired db now

-- ===== src/Emergency/Service.antt =====
-- internal/service/emergency_access_service.go. A request is given the clock, the identifier that
-- `uuid.New` draws, the users (userRepo.GetByID) and the text functions of Go's `strings` package
-- as arguments. The emails, sent by goroutines after the answer, and the log change no state and
-- are left out.
use passwall_server.Base.{
  ℕ, Option, none, some, String, Bool, List, [], ◌∷◌, M, Gorm, str_eq, ◌==◌, holds, not, Result, ok,
  err, ◌>>=◌, ◌>>◌, ◌++◌, pure, require, lift, on_error, logged, or_fail, forbidden, invalid_input,
  message, wrap,
}
use passwall_server.Emergency.Record.{
  invited, accepted, confirmed, recovery_requested, recovery_approved, recovery_rejected,
  EmergencyAccess, Table, is_invited, is_accepted, is_confirmed, is_recovery_requested,
  is_recovery_approved, create, get_by_uuid, list_by_grantor, list_by_grantee,
  list_by_grantee_email, list_confirmed_by_grantor, update, delete,
}

-- What the service reads of a user.
pub record User : Type 0 where
  pub email : String
  pub name : String
  pub personal_organization_id : ℕ

-- Go's strings.TrimSpace, strings.ToLower and strings.EqualFold.
pub record Strings : Type 0 where
  pub trim_space : String → String
  pub to_lower : String → String
  pub equal_fold : String → String → Bool

pub record EmergencyVaultResponse (Item : Type 0) : Type 0 where
  pub key_encrypted : String
  pub items : List Item

module _ (db : Gorm EmergencyAccess) (users : ℕ → Result User) (strings : Strings) where
  unfoldable pub invite : String → ℕ → String → M Table EmergencyAccess
  invite uuid grantor_id given = do
    let grantee_email = strings.trim_space (strings.to_lower given)
    require (not (str_eq grantee_email "")) invalid_input
    grantor ← on_error (wrap "failed to get grantor") (lift (users grantor_id))
    require (not (strings.equal_fold grantor.email grantee_email)) invalid_input
    on_error (wrap "failed to create emergency access") (
        create db (record {
          id = 0;
          uuid = uuid;
          grantor_id = grantor_id;
          grantee_id = none;
          grantee_email = grantee_email;
          status = invited;
          key_encrypted = none;
          recovery_init_at = none;
          recovery_approve_at = none;
        }))

  unfoldable pub list_granted : ℕ → M Table Table
  list_granted grantor_id = list_by_grantor db grantor_id

  unfoldable pub list_trusted : ℕ → String → M Table Table
  list_trusted grantee_id grantee_email = do
    granted ← list_by_grantee db grantee_id
    pending ← list_by_grantee_email db grantee_email
    pure (granted ++ pending)

  unfoldable pub accept : ℕ → String → M Table EmergencyAccess
  accept grantee_id ea_uuid = do
    ea ← get_by_uuid db ea_uuid
    require (is_invited ea.status) invalid_input
    grantee ← on_error (wrap "failed to get grantee") (lift (users grantee_id))
    require (strings.equal_fold grantee.email ea.grantee_email) forbidden
    let ea' = record ea { grantee_id = some grantee_id; status = accepted }
    on_error (wrap "failed to update emergency access") (update db ea')
    pure ea'

  unfoldable pub confirm : ℕ → String → String → M Table EmergencyAccess
  confirm grantor_id ea_uuid key_encrypted = do
    require (not (str_eq (strings.trim_space key_encrypted) "")) invalid_input
    ea ← get_by_uuid db ea_uuid
    require (ea.grantor_id == grantor_id) forbidden
    require (is_accepted ea.status) invalid_input
    let ea' = record ea { key_encrypted = some key_encrypted; status = confirmed }
    on_error (wrap "failed to confirm emergency access") (update db ea')
    pure ea'

  unfoldable pub request_recovery : ℕ → ℕ → String → M Table EmergencyAccess
  request_recovery now grantee_id ea_uuid = do
    ea ← get_by_uuid db ea_uuid
    require (holds ea.grantee_id grantee_id) forbidden
    require (is_confirmed ea.status) invalid_input
    let ea' = record ea { status = recovery_requested; recovery_init_at = some now }
    on_error (wrap "failed to request recovery") (update db ea')
    pure ea'

  unfoldable pub approve_recovery : ℕ → ℕ → String → M Table EmergencyAccess
  approve_recovery now grantor_id ea_uuid = do
    ea ← get_by_uuid db ea_uuid
    require (ea.grantor_id == grantor_id) forbidden
    require (is_recovery_requested ea.status) invalid_input
    let ea' = record ea { status = recovery_approved; recovery_approve_at = some now }
    on_error (wrap "failed to approve recovery") (update db ea')
    pure ea'

  unfoldable pub reject_recovery : ℕ → String → M Table EmergencyAccess
  reject_recovery grantor_id ea_uuid = do
    ea ← get_by_uuid db ea_uuid
    require (ea.grantor_id == grantor_id) forbidden
    require (is_recovery_requested ea.status) invalid_input
    let ea' = record ea { status = recovery_rejected }
    on_error (wrap "failed to reject recovery") (update db ea')
    pure ea'

  unfoldable pub revoke : ℕ → String → M Table (Unit {0})
  revoke grantor_id ea_uuid = do
    ea ← get_by_uuid db ea_uuid
    require (ea.grantor_id == grantor_id) forbidden
    delete db ea.id

  -- `list_items` is orgItemRepo.ListByOrganization for an organization, at most 10000 items.
  unfoldable pub get_vault_for_recovery :
      {Item : Type 0}
      → (ℕ → Result (List Item))
      → ℕ
      → String
      → M Table (EmergencyVaultResponse Item)
  get_vault_for_recovery list_items grantee_id ea_uuid = do
    ea ← get_by_uuid db ea_uuid
    require (holds ea.grantee_id grantee_id) forbidden
    require (is_recovery_approved ea.status) forbidden
    vault_key ← or_fail ea.key_encrypted (message "key exchange not completed")
    grantor ← on_error (wrap "failed to get grantor") (lift (users ea.grantor_id))
    items ←
        on_error (wrap "failed to list personal vault items")
          (lift (list_items grantor.personal_organization_id))
    logged (
        update db
          (record ea { status = confirmed; recovery_init_at = none; recovery_approve_at = none }))
    pure (record { key_encrypted = vault_key; items = items })

  -- The body of the loop of ReKeyForUser: a nil key is skipped, and an error of either call is
  -- logged and the loop goes on.
  unfoldable pub store_rekeyed : EmergencyAccess → Result String → M Table (Unit {0})
  store_rekeyed ea (err e) = pure tt
  store_rekeyed ea (ok new_key) = logged (update db (record ea { key_encrypted = some new_key }))

  unfoldable pub rekey_key :
      (String → Result String) → EmergencyAccess → Option String → M Table (Unit {0})
  rekey_key rekey_fn ea none = pure tt
  rekey_key rekey_fn ea (some old_key) = store_rekeyed ea (rekey_fn old_key)

  unfoldable pub rekey_grants : (String → Result String) → List EmergencyAccess → M Table (Unit {0})
  rekey_grants rekey_fn [] = pure tt
  rekey_grants rekey_fn (ea ∷ grants) =
      rekey_key rekey_fn ea ea.key_encrypted >> rekey_grants rekey_fn grants

  unfoldable pub rekey_for_user : ℕ → (String → Result String) → M Table (Unit {0})
  rekey_for_user grantor_id rekey_fn = do
    grants ←
        on_error (wrap "failed to list confirmed grants") (list_confirmed_by_grantor db grantor_id)
    rekey_grants rekey_fn grants

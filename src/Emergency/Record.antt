-- ===== src/Emergency/Record.antt =====
-- The record of internal/domain/emergency_access.go and its table,
-- internal/repository/gormrepo/emergency_access.go. Times are numbers; the columns that gorm keeps
-- by itself (created_at, updated_at) and the preloaded users are left out.
use passwall_server.Base.{
  ℕ, Option, String, Bool, true, false, List, M, query, write, commit_value, map_error, translate,
  Gorm, str_eq, ◌==◌, holds, ◌&&◌, ◌||◌, not,
}

pub data Status : Type 0 where
  invited accepted confirmed recovery_requested recovery_approved recovery_rejected revoked : Status

pub record EmergencyAccess : Type 0 where
  pub id : ℕ
  pub uuid : String
  pub grantor_id : ℕ
  pub grantee_id : Option ℕ
  pub grantee_email : String
  pub status : Status
  pub key_encrypted : Option String
  pub recovery_init_at : Option ℕ
  pub recovery_approve_at : Option ℕ

abbrev pub key : EmergencyAccess → ℕ
key ea = ea.id

abbrev pub rekey : ℕ → EmergencyAccess → EmergencyAccess
rekey k ea = record ea { id = k }

abbrev pub is_invited : Status → Bool
is_invited invited = true
is_invited _ = false

abbrev pub is_accepted : Status → Bool
is_accepted accepted = true
is_accepted _ = false

abbrev pub is_confirmed : Status → Bool
is_confirmed confirmed = true
is_confirmed _ = false

abbrev pub is_recovery_requested : Status → Bool
is_recovery_requested recovery_requested = true
is_recovery_requested _ = false

abbrev pub is_recovery_approved : Status → Bool
is_recovery_approved recovery_approved = true
is_recovery_approved _ = false

abbrev pub is_revoked : Status → Bool
is_revoked revoked = true
is_revoked _ = false

abbrev pub Table : Type 0
Table = List EmergencyAccess

module _ (db : Gorm EmergencyAccess) where
  -- The row as it is created, with its key.
  abbrev pub create : EmergencyAccess → M Table EmergencyAccess
  create ea rows = commit_value (db.create ea rows) rows

  abbrev pub get_by_uuid : String → M Table EmergencyAccess
  get_by_uuid uuid = query λ rows. map_error translate (db.first (λ ea. str_eq ea.uuid uuid) rows)

  abbrev pub list_by_grantor : ℕ → M Table Table
  list_by_grantor grantor_id =
      query (db.find λ ea. (ea.grantor_id == grantor_id) && not (is_revoked ea.status))

  abbrev pub list_by_grantee : ℕ → M Table Table
  list_by_grantee grantee_id =
      query (db.find λ ea. holds ea.grantee_id grantee_id && not (is_revoked ea.status))

  abbrev pub list_by_grantee_email : String → M Table Table
  list_by_grantee_email email =
      query (db.find λ ea. str_eq ea.grantee_email email && is_invited ea.status)

  abbrev pub list_confirmed_by_grantor : ℕ → M Table Table
  list_confirmed_by_grantor grantor_id = query (
      db.find λ ea.
        (ea.grantor_id == grantor_id) && (is_confirmed ea.status || is_recovery_approved ea.status))

  abbrev pub update : EmergencyAccess → M Table (Unit {0})
  update ea = write (db.save ea)

  abbrev pub delete : ℕ → M Table (Unit {0})
  delete id = write (db.delete id)

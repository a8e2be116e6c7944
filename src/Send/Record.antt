-- ===== src/Send/Record.antt =====
-- The record of internal/domain/send.go and its table, internal/repository/gormrepo/send.go. Times
-- are numbers. Counts are natural numbers; a negative limit is reached at once, as 0 is. The
-- columns that gorm keeps by itself (created_at, updated_at) are left out. `Preload("Creator")` is
-- an argument: the email of the user with an identifier, if there is one.
use passwall_server.Base.{
  ℕ, suc, Option, none, some, String, Bool, true, false, List, M, Gorm, Result, str_eq, ◌==◌, ltb,
  leb, ◌&&◌, not, query, write, lift, commit_value, on_error, translate, ◌>>=◌, pure,
}

pub record Send : Type 0 where
  pub id : ℕ
  pub uuid : String
  pub deleted_at : Option ℕ
  pub access_id : String
  pub creator_id : ℕ
  pub organization_id : ℕ
  pub name : String
  pub type : String
  pub data_text : String
  pub notes : Option String
  pub password : Option String
  pub max_access_count : Option ℕ
  pub access_count : ℕ
  pub expiration_date : Option ℕ
  pub deletion_date : ℕ
  pub disabled : Bool
  pub hide_email : Bool

abbrev pub key : Send → ℕ
key s = s.id

abbrev pub rekey : ℕ → Send → Send
rekey k s = record s { id = k }

-- `p != nil && *p < now` on times.
abbrev pub before : Option ℕ → ℕ → Bool
before none now = false
before (some t) now = ltb t now

abbrev pub reached : Option ℕ → ℕ → Bool
reached none n = false
reached (some limit) n = leb limit n

abbrev pub non_empty : Option String → Bool
non_empty none = false
non_empty (some s) = not (str_eq s "")

abbrev pub is_expired : ℕ → Send → Bool
is_expired now s = before s.expiration_date now

abbrev pub is_access_limit_reached : Send → Bool
is_access_limit_reached s = reached s.max_access_count s.access_count

abbrev pub has_password : Send → Bool
has_password s = non_empty s.password

pub record SendAccessDto : Type 0 where
  pub access_id : String
  pub name : String
  pub type : String
  pub data_text : String
  pub notes : Option String
  pub creator_email : String
  pub with_password : Bool
  pub expiration_date : Option ℕ

abbrev pub Table : Type 0
Table = List Send

-- `deleted_at IS NULL`.
abbrev pub is_null : Option ℕ → Bool
is_null none = true
is_null (some t) = false

abbrev pub by_uuid : String → Send → Bool
by_uuid uuid s = str_eq s.uuid uuid && is_null s.deleted_at

abbrev pub by_access_id : String → Send → Bool
by_access_id access_id s = str_eq s.access_id access_id && is_null s.deleted_at

abbrev pub counted_once : Send → Send
counted_once s = record s { access_count = suc s.access_count }

abbrev pub is_due : ℕ → Send → Bool
is_due now s = leb s.deletion_date now && is_null s.deleted_at

module _ (db : Gorm Send) where
  abbrev pub create : Send → M Table Send
  create s rows = commit_value (db.create s rows) rows

  abbrev pub list_by_creator : ℕ → M Table Table
  list_by_creator creator_id =
      query (db.find λ s. (s.creator_id == creator_id) && is_null s.deleted_at)

  abbrev pub save : Send → M Table (Unit {0})
  save s = write (db.save s)

  abbrev pub soft_delete : ℕ → ℕ → M Table (Unit {0})
  soft_delete now id = write (db.update (λ s. s.id == id) (λ s. record s { deleted_at = some now }))

  abbrev pub increment_access_count : ℕ → M Table (Unit {0})
  increment_access_count id = write (db.update (λ s. s.id == id) counted_once)

  abbrev pub delete_expired : ℕ → M Table ℕ
  delete_expired now rows = commit_value (db.delete_where (is_due now) rows) rows

module _ (db : Gorm Send) (creators : ℕ → Result (Option String)) where
  -- A send with the email of its creator.
  unfoldable pub load : (Send → Bool) → M Table (Send × Option String)
  load p = do s ← query (db.first p); creator ← lift (creators s.creator_id); pure (s, creator)

  abbrev pub get_by_uuid : String → M Table (Send × Option String)
  get_by_uuid uuid = on_error translate (load (by_uuid uuid))

  abbrev pub find_by_access_id : String → M Table (Send × Option String)
  find_by_access_id access_id = on_error translate (load (by_access_id access_id))

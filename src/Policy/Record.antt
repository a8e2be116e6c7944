-- ===== src/Policy/Record.antt =====
-- The policy row and its table (internal/domain/organization_policy.go,
-- internal/repository/gormrepo/organization_policy.go). A configuration is a list of keys with
-- values; nil and the empty map are stored alike. The columns that gorm keeps are left out.
use passwall_server.Base.{
  ℕ, Option, none, some, String, Bool, List, [], ◌∷◌, M, query, write, commit_value, map_error,
  translate, Gorm, str_eq, ◌==◌, ◌&&◌, if◌then◌else◌,
}

-- A JSON value. `decimal n` is a positive number that is not whole and whose whole part is n, with
-- its digits; a negative number is kept as its source text.
mutual
  pub data Value : Type 0 where
    text raw : String → Value
    number : ℕ → Value
    decimal : ℕ → String → Value
    flag : Bool → Value
    array : Elements → Value
    object : Fields → Value

  pub data Elements : Type 0 where
    end : Elements
    element : Value → Elements → Elements

  pub data Fields : Type 0 where
    close : Fields
    field : String → Value → Fields → Fields

abbrev pub PolicyData : Type 0
PolicyData = List (String × Value)

unfoldable pub lookup : String → PolicyData → Option Value
lookup k [] = none
lookup k ((j, v) ∷ d) = if str_eq j k then some v else lookup k d

unfoldable pub insert : String → Value → PolicyData → PolicyData
insert k v [] = (k, v) ∷ []
insert k v ((j, w) ∷ d) = if str_eq j k then (k, v) ∷ d else (j, w) ∷ insert k v d

pub record OrganizationPolicy : Type 0 where
  pub id : ℕ
  pub uuid : String
  pub organization_id : ℕ
  pub type : String
  pub enabled : Bool
  pub policy_data : PolicyData
  pub last_enabled_by_user_id : Option ℕ
  pub last_disabled_by_user_id : Option ℕ

abbrev pub key : OrganizationPolicy → ℕ
key p = p.id

abbrev pub rekey : ℕ → OrganizationPolicy → OrganizationPolicy
rekey k p = record p { id = k }

abbrev pub Table : Type 0
Table = List OrganizationPolicy

module _ (db : Gorm OrganizationPolicy) where
  abbrev pub create : OrganizationPolicy → M Table OrganizationPolicy
  create p rows = commit_value (db.create p rows) rows

  abbrev pub get_by_org_and_type : ℕ → String → M Table OrganizationPolicy
  get_by_org_and_type org_id t = query λ rows.
      map_error translate (db.first (λ p. (p.organization_id == org_id) && str_eq p.type t) rows)

  abbrev pub list_by_organization : ℕ → M Table Table
  list_by_organization org_id = query (db.find λ p. p.organization_id == org_id)

  abbrev pub list_enabled_by_organization : ℕ → M Table Table
  list_enabled_by_organization org_id =
      query (db.find λ p. (p.organization_id == org_id) && p.enabled)

  abbrev pub update : OrganizationPolicy → M Table (Unit {0})
  update p = write (db.save p)

-- ===== src/Tests/Emergency.antt =====
-- Emergency access from the invitation to the opened vault, on a table in memory.
use passwall_server.Base.{
  Memᴰ, ℕ, some, String, List, [], ◌∷◌, Gorm, IsGorm, memory, memory-IsGorm, first_row, next_key,
  upsert, str_eq, Result, ok, err, not_found, after, require, lift, or_fail, commit, commit_value,
  map_outcome, drop_error, if◌then◌else◌, ◌==◌, ◌≡◌, refl, All,
}
use passwall_server.Emergency.Record.{EmergencyAccess, Table, key, rekey}
use passwall_server.Emergency.Service.{
  User, Strings, invite, accept, confirm, request_recovery, approve_recovery,
  get_vault_for_recovery,
}
use passwall_server.Emergency.Lifecycle.{
  Request, invites, accepts, confirms, requests, approves, serve, Accounted,
}
use passwall_server.Emergency.Accounting.{serve-Accounted}
use passwall_server.Emergency.Safety.{run, IsConsistent, run-IsConsistent}
use passwall_server.Emergency.Provenance.{ApprovedBy, vault_needs_approval}

abbrev db : Gorm EmergencyAccess
db = memory key rekey

db-IsGorm : IsGorm key rekey db
db-IsGorm = memory-IsGorm key rekey (λ k r. refl)

abbrev users : ℕ → Result User
users n =
    if n == 1
    then ok (record { email = "ada@example.org"; name = "Ada"; personal_organization_id = 7 })
    else ok (record { email = "bob@example.org"; name = ""; personal_organization_id = 8 })

abbrev strings : Strings
strings = record { trim_space = λ s. s; to_lower = λ s. s; equal_fold = str_eq }

abbrev items : ℕ → Result (List String)
items n = ok ("item" ∷ [])

abbrev rekey_fn : String → Result String
rekey_fn k = err not_found

abbrev history : List (Gorm EmergencyAccess × Request)
history =
    (db, approves 5 1 "u")
    ∷ (db, requests 3 2 "u")
    ∷ (db, confirms 1 "u" "wrapped key")
    ∷ (db, accepts 2 "u")
    ∷ (db, invites "u" 1 "bob@example.org")
    ∷ []

abbrev table : Table
table = run users strings items rekey_fn history

reliable : All (λ (e : Gorm EmergencyAccess × Request). IsGorm key rekey e.0) history
reliable = (db-IsGorm, (db-IsGorm, (db-IsGorm, (db-IsGorm, (db-IsGorm, tt)))))

vault_runs : get_vault_for_recovery db users strings items 2 "u" table ≡ (
  ok (record { key_encrypted = "wrapped key"; items = "item" ∷ [] }),
  (get_vault_for_recovery db users strings items 2 "u" table).1,
)
unfolding run serve invite accept confirm request_recovery approve_recovery get_vault_for_recovery
    after require lift or_fail commit commit_value map_outcome drop_error first_row next_key upsert
vault_runs = refl

vault_needs_approval_example :
    (ea : EmergencyAccess) × Memᴰ ea table
    × (ea.uuid ≡ "u")
    × (ea.grantee_id ≡ some 2)
    × (ea.key_encrypted ≡ some "wrapped key")
    × ApprovedBy ea.grantor_id 2 "u" history
vault_needs_approval_example =
    vault_needs_approval users strings items rekey_fn history db 2 "u"
      (record { key_encrypted = "wrapped key"; items = "item" ∷ [] }) _ reliable db-IsGorm
      vault_runs

run-IsConsistent_example : All IsConsistent table
run-IsConsistent_example = run-IsConsistent users strings items rekey_fn history reliable

serve-Accounted_example :
    All
      (Accounted users strings items rekey_fn (approves 6 1 "u") table)
      (serve users strings items rekey_fn db (approves 6 1 "u") table)
serve-Accounted_example =
    serve-Accounted db db-IsGorm users strings items rekey_fn (approves 6 1 "u") table

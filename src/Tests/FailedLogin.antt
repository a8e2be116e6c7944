-- ===== src/Tests/FailedLogin.antt =====
-- Failed logins of one address in an organization that allows two in an hour and blocks for a
-- minute.
use passwall_server.Base.{ℕ, Option, some, false, [], ◌∷◌, Result, ok, ◌≡◌, refl, arith}
use passwall_server.Policy.Record.{PolicyData, number, lookup}
use passwall_server.FailedLogin.Tracker.{
  FailedLoginConfig, get_config, positive_or, Entries, find_entry, same_key, is_blocked,
}
use passwall_server.FailedLogin.Counting.{fail_at, ended_block_stays_open}

abbrev policies : ℕ → Result (Option PolicyData)
policies o = ok (
    some (
      ("max_attempts", number 2)
      ∷ ("window_minutes", number 60)
      ∷ ("block_duration_minutes", number 1)
      ∷ []))

abbrev config : FailedLoginConfig
config = record { max_attempts = 2; window_minutes = 60; block_duration_minutes = 1 }

read_config : get_config (policies 1) ≡ some config
unfolding positive_or lookup
read_config = refl

abbrev blocked_entries : Entries
blocked_entries = ((1, "a"), record { attempts = 2; first_fail = 100; blocked_at = some 130 }) ∷ []

has_entry :
    find_entry (1, "a") blocked_entries
    ≡ some (record { attempts = 2; first_fail = 100; blocked_at = some 130 })
unfolding find_entry same_key
has_entry = refl

ended_block_stays_open_example :
    is_blocked policies 300 1 "a" (fail_at policies (200 ∷ 210 ∷ 220 ∷ []) 1 "a" blocked_entries)
    ≡ false
ended_block_stays_open_example =
    ended_block_stays_open policies config 300 100 130 2 (200 ∷ 210 ∷ 220 ∷ []) 1 "a"
      blocked_entries read_config has_entry (omega arith)
      (omega arith, (omega arith, (omega arith, tt)))

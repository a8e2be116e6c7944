-- ===== src/FailedLogin/Tracker.antt =====
-- The tracker of failed logins (internal/service/policy_failed_login.go). Times are numbers of
-- seconds, and a call reads the clock once. The key "orgID:ip" of the map is the pair of its parts.
-- The lock, the wording of the message, and the timer of the cleanup are left out. GetPolicyData of
-- the policy service is an argument.
use passwall_server.Base.{
  ℕ, suc, ◌+◌, ◌*◌, Option, none, some, String, Bool, true, false, List, [], ◌∷◌, str_eq, ◌==◌, ltb,
  leb, ◌&&◌, not, if◌then◌else◌, Result, ok, err,
}
use passwall_server.Policy.Record.{Value, number, decimal, PolicyData, lookup}

pub record FailedLoginEntry : Type 0 where
  pub attempts : ℕ
  pub first_fail : ℕ
  pub blocked_at : Option ℕ

pub record FailedLoginConfig : Type 0 where
  pub max_attempts : ℕ
  pub window_minutes : ℕ
  pub block_duration_minutes : ℕ

-- The whole part of a positive number at the key, or the default.
unfoldable pub positive_or : ℕ → Option Value → ℕ
positive_or n (some (number v)) = if ltb 0 v then v else n
positive_or n (some (decimal v s)) = v
positive_or n _ = n

abbrev pub config_of : PolicyData → FailedLoginConfig
config_of d = record {
  max_attempts = positive_or 5 (lookup "max_attempts" d);
  window_minutes = positive_or 15 (lookup "window_minutes" d);
  block_duration_minutes = positive_or 30 (lookup "block_duration_minutes" d);
}

abbrev pub get_config : Result (Option PolicyData) → Option FailedLoginConfig
get_config (ok (some d)) = some (config_of d)
get_config (ok none) = none
get_config (err e) = none

abbrev pub Key : Type 0
Key = ℕ × String

unfoldable pub same_key : Key → Key → Bool
same_key a b = (a.0 == b.0) && str_eq a.1 b.1

abbrev pub Entries : Type 0
Entries = List (Key × FailedLoginEntry)

unfoldable pub find_entry : Key → Entries → Option FailedLoginEntry
find_entry k [] = none
find_entry k ((j, e) ∷ es) = if same_key j k then some e else find_entry k es

unfoldable pub put_entry : Key → FailedLoginEntry → Entries → Entries
put_entry k e [] = (k, e) ∷ []
put_entry k e ((j, d) ∷ es) =
    let rest = put_entry k e es in if same_key j k then (k, e) ∷ es else (j, d) ∷ rest

unfoldable pub delete_entry : Key → Entries → Entries
delete_entry k [] = []
delete_entry k ((j, d) ∷ es) =
    let rest = delete_entry k es in if same_key j k then rest else (j, d) ∷ rest

abbrev pub is_none : Option ℕ → Bool
is_none none = true
is_none (some n) = false

abbrev pub entry_or_new : ℕ → Option FailedLoginEntry → FailedLoginEntry
entry_or_new now (some e) = e
entry_or_new now none = record { attempts = 0; first_fail = now; blocked_at = none }

-- The window starts again where it has passed.
unfoldable pub in_window : FailedLoginConfig → ℕ → FailedLoginEntry → FailedLoginEntry
in_window c now e =
    if ltb (e.first_fail + c.window_minutes * 60) now
    then record { attempts = 0; first_fail = now; blocked_at = none }
    else e

-- One more attempt, and the block where it is the one too many.
unfoldable pub count_attempt : FailedLoginConfig → ℕ → FailedLoginEntry → FailedLoginEntry
count_attempt c now e =
    if leb c.max_attempts (suc e.attempts) && is_none e.blocked_at
    then record { attempts = suc e.attempts; first_fail = e.first_fail; blocked_at = some now }
    else record e { attempts = suc e.attempts }

unfoldable pub next_entry : FailedLoginConfig → ℕ → Option FailedLoginEntry → FailedLoginEntry
unfolding in_window count_attempt
next_entry c now o = count_attempt c now (in_window c now (entry_or_new now o))

abbrev pub still_blocked : FailedLoginConfig → ℕ → Option ℕ → Bool
still_blocked c now none = false
still_blocked c now (some b) = not (ltb (b + c.block_duration_minutes * 60) now)

-- Without a policy nothing is recorded and nobody is blocked.
unfoldable pub record_with : Option FailedLoginConfig → ℕ → Key → Entries → Entries
record_with none now k es = es
record_with (some c) now k es = put_entry k (next_entry c now (find_entry k es)) es

abbrev pub entry_blocked : FailedLoginConfig → ℕ → Option FailedLoginEntry → Bool
entry_blocked c now none = false
entry_blocked c now (some e) = still_blocked c now e.blocked_at

unfoldable pub blocked_with : Option FailedLoginConfig → ℕ → Key → Entries → Bool
blocked_with none now k es = false
blocked_with (some c) now k es = entry_blocked c now (find_entry k es)

module _ (get_policy_data : ℕ → Result (Option PolicyData)) where
  unfoldable pub record_failed_attempt : ℕ → ℕ → String → Entries → Entries
  unfolding record_with
  record_failed_attempt now org_id ip es =
      record_with (get_config (get_policy_data org_id)) now (org_id, ip) es

  unfoldable pub is_blocked : ℕ → ℕ → String → Entries → Bool
  unfolding blocked_with
  is_blocked now org_id ip es =
      blocked_with (get_config (get_policy_data org_id)) now (org_id, ip) es

unfoldable pub record_success : ℕ → String → Entries → Entries
record_success org_id ip es = delete_entry (org_id, ip) es

-- The age, in seconds, at which the cleanup drops an entry: `2 * time.Hour`.
abbrev pub max_age : ℕ
max_age = 7200

abbrev pub since_block : Option ℕ → FailedLoginEntry → ℕ
since_block none e = e.first_fail
since_block (some b) e = b

-- One run of the cleanup.
unfoldable pub cleanup : ℕ → Entries → Entries
cleanup now [] = []
cleanup now ((k, e) ∷ es) =
    let rest = cleanup now es in
    if ltb (since_block e.blocked_at e + max_age) now then rest else (k, e) ∷ rest

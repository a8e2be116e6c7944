-- ===== src/FailedLogin/Counting.antt =====
-- How failed logins add up to a block.
use passwall_server.Base.{
  ℕ, zero, suc, ◌+◌, ◌*◌, ◌≤◌, ◌<◌, Option, none, some, String, true, false, List, [], ◌∷◌, Result,
  ◌≡◌, refl, ap, ◌∙◌, All, arith, Bool-cases, ==_self, eq_iff, inl, inr, and_intro,
}
use passwall_server.Policy.Record.{PolicyData}
use passwall_server.FailedLogin.Tracker.{
  FailedLoginEntry, FailedLoginConfig, get_config, Key, same_key, Entries, find_entry, put_entry,
  in_window, count_attempt, next_entry, still_blocked, record_failed_attempt, is_blocked,
  record_with, blocked_with, entry_blocked,
}

-- The entry of a key after failures at these times, the earliest first.
unfoldable pub after_failures :
    FailedLoginConfig → List ℕ → Option FailedLoginEntry → Option FailedLoginEntry
after_failures c [] o = o
after_failures c (t ∷ ts) o = after_failures c ts (some (next_entry c t o))

-- The tracker after failed attempts at these times, the earliest first.
unfoldable pub fail_at : (ℕ → Result (Option PolicyData)) → List ℕ → ℕ → String → Entries → Entries
fail_at policies [] o ip es = es
fail_at policies (t ∷ ts) o ip es =
    fail_at policies ts o ip (record_failed_attempt policies t o ip es)

-- The time at an index, counted from 0.
unfoldable pub time_at : ℕ → List ℕ → Option ℕ
time_at n [] = none
time_at zero (t ∷ ts) = some t
time_at (suc n) (t ∷ ts) = time_at n ts

same_key_self : (k : Key) → same_key k k ≡ true
unfolding same_key
same_key_self k = and_intro _ _ (==_self k.0) ((eq_iff k.1 k.1).1 refl)

find_entry-put_entry :
    (k : Key) (e : FailedLoginEntry) (es : Entries) → find_entry k (put_entry k e es) ≡ some e
unfolding find_entry put_entry
find_entry-put_entry k e [] = rw (same_key_self k) refl
find_entry-put_entry k e ((j, d) ∷ es) = elim (Bool-cases (same_key j k)) [
  | inl t ↦ rw (t, same_key_self k) refl
  | inr f ↦ rw (f, f) (find_entry-put_entry k e es)
]

record_known :
    (policies : ℕ → Result (Option PolicyData)) (c : FailedLoginConfig) (t o : ℕ) (ip : String)
    (es : Entries)
    → get_config (policies o) ≡ some c
    → record_failed_attempt policies t o ip es
      ≡ put_entry (o, ip) (next_entry c t (find_entry (o, ip) es)) es
unfolding record_failed_attempt record_with
record_known policies c t o ip es h = ap (λ g. record_with g t (o, ip) es) h

is_blocked_known :
    (policies : ℕ → Result (Option PolicyData)) (c : FailedLoginConfig) (t o : ℕ) (ip : String)
    (es : Entries) (e : FailedLoginEntry)
    → get_config (policies o) ≡ some c
    → find_entry (o, ip) es ≡ some e
    → is_blocked policies t o ip es ≡ still_blocked c t e.blocked_at
unfolding is_blocked blocked_with
is_blocked_known policies c t o ip es e h k =
    ap (λ g. blocked_with g t (o, ip) es) h ∙ ap (entry_blocked c t) k

find_entry-fail_at :
    (policies : ℕ → Result (Option PolicyData)) (c : FailedLoginConfig) (ts : List ℕ) (o : ℕ)
    (ip : String) (es : Entries)
    → get_config (policies o) ≡ some c
    → find_entry (o, ip) (fail_at policies ts o ip es) ≡ after_failures c ts (find_entry (o, ip) es)
unfolding fail_at after_failures
find_entry-fail_at policies c [] o ip es h = refl
find_entry-fail_at policies c (t ∷ ts) o ip es h =
    let e = next_entry c t (find_entry (o, ip) es) in
    find_entry-fail_at policies c ts o ip (record_failed_attempt policies t o ip es) h
    ∙ ap (after_failures c ts) (
        ap (find_entry (o, ip)) (record_known policies c t o ip es h)
        ∙ find_entry-put_entry (o, ip) e es)

-- A blocked entry stays as it is within its window.
next_entry_blocked :
    (c : FailedLoginConfig) (t a f b : ℕ)
    → t ≤ f + c.window_minutes * 60
    → next_entry c t (some (record { attempts = a; first_fail = f; blocked_at = some b }))
      ≡ record { attempts = suc a; first_fail = f; blocked_at = some b }
unfolding next_entry in_window count_attempt
next_entry_blocked c t a f b le = ground arith

abbrev InWindow : FailedLoginConfig → ℕ → List ℕ → Type 0
InWindow c f = All (λ t. t ≤ f + c.window_minutes * 60)

abbrev entry : ℕ → ℕ → Option ℕ → FailedLoginEntry
entry a f b = record { attempts = a; first_fail = f; blocked_at = b }

-- The attempts of a list of times, added to those before.
abbrev pub count : ℕ → List ℕ → ℕ
count a [] = a
count a (t ∷ ts) = count (suc a) ts

after_failures_blocked :
    (c : FailedLoginConfig) (ts : List ℕ) (a f b : ℕ)
    → InWindow c f ts
    → after_failures c ts (some (entry a f (some b))) ≡ some (entry (count a ts) f (some b))
unfolding after_failures
after_failures_blocked c [] a f b w = refl
after_failures_blocked c (t ∷ ts) a f b w =
    ap (λ e. after_failures c ts (some e)) (next_entry_blocked c t a f b w.0)
    ∙ after_failures_blocked c ts (suc a) f b w.1

module _ (policies : ℕ → Result (Option PolicyData)) (c : FailedLoginConfig) where
  -- Where the entry of an address was blocked at `b` and its window still runs, but the block has
  -- ended, no number of failed logins within the window blocks it again there.
  pub ended_block_stays_open :
      (now f b a : ℕ) (ts : List ℕ) (o : ℕ) (ip : String) (es : Entries)
      → get_config (policies o) ≡ some c
      → find_entry (o, ip) es ≡ some (record { attempts = a; first_fail = f; blocked_at = some b })
      → b + c.block_duration_minutes * 60 < now
      → All (λ t. t ≤ f + c.window_minutes * 60) ts
      → is_blocked policies now o ip (fail_at policies ts o ip es) ≡ false
  ended_block_stays_open now f b a ts o ip es h there over w =
      is_blocked_known policies c now o ip (fail_at policies ts o ip es) _ h (
        find_entry-fail_at policies c ts o ip es h
        ∙ ap (after_failures c ts) there
        ∙ after_failures_blocked c ts a f b w)
      ∙ over_lem
    where
      over_lem : still_blocked c now (some b) ≡ false
      over_lem = ground arith

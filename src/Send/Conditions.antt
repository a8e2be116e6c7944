-- ===== src/Send/Conditions.antt =====
-- Who may open a send, and when (internal/domain/send.go and the guards of
-- internal/service/send_service.go), written without the code's tests, and what those tests give.
use passwall_server.Base.{
  ℕ, ◌≤◌, ◌<◌, ◌≢◌, ◌≡◌, refl, ap, ◌⊎◌, inl, inr, Option, none, some, String, true, false, Memᴰ,
  and_left, and_right, eq_iff, str_eq, Bool-cases, arith,
}
use passwall_server.Send.Record.{
  Send, Table, by_access_id, is_expired, is_access_limit_reached, before, reached, is_null,
  non_empty,
}
use passwall_server.Send.Service.{Services, password_matches}

-- A request for the payload, with a password or without one.
pub data Attempt : Type 0 where
  look : Attempt
  unlock : String → Attempt

-- What the guards of the code leave of a send.
abbrev pub Passes : ℕ → String → Table → Send → Type 0
Passes now access_id rows s =
    Memᴰ s rows
    × (by_access_id access_id s ≡ true)
    × (s.disabled ≡ false)
    × (is_expired now s ≡ false)
    × (is_access_limit_reached s ≡ false)

-- The time is not past the date, if there is one.
abbrev pub NotPast : Option ℕ → ℕ → Type 0
NotPast none now = Unit {0}
NotPast (some t) now = now ≤ t

-- The number is below the limit, if there is one.
abbrev pub Below : Option ℕ → ℕ → Type 0
Below none n = Unit {0}
Below (some limit) n = n < limit

-- A send of the access identifier that is in the table, not deleted, not disabled, not expired and
-- below its limit of accesses.
abbrev pub CanOpen : ℕ → String → Table → Send → Type 0
CanOpen now access_id rows s =
    Memᴰ s rows
    × (s.access_id ≡ access_id)
    × (s.deleted_at ≡ none)
    × (s.disabled ≡ false)
    × NotPast s.expiration_date now
    × Below s.max_access_count s.access_count

abbrev pub NoPassword : Option String → Type 0
NoPassword p = (p ≡ none) ⊎ (p ≡ some "")

-- The send has no password, or the attempt has one that fits the hash.
abbrev pub Unlocked : Services → Option String → Attempt → Type 0
Unlocked ext p look = NoPassword p
Unlocked ext p (unlock given) =
    NoPassword p ⊎ ((h : String) × (p ≡ some h) × (ext.compare_password h given ≡ true))

-- The send has a password, and the attempt gives none.
abbrev pub Locked : Option String → Attempt → Type 0
Locked p look = (h : String) × (p ≡ some h) × (h ≢ "")
Locked p (unlock given) = ⊥

not_past : (o : Option ℕ) (now : ℕ) → before o now ≡ false → NotPast o now
not_past none now h = tt
not_past (some t) now h = ground arith

below : (o : Option ℕ) (n : ℕ) → reached o n ≡ false → Below o n
below none n h = tt
below (some limit) n h = ground arith

null_none : (o : Option ℕ) → is_null o ≡ true → o ≡ none
null_none none h = refl
null_none (some t) h = cc

pub Passes-CanOpen :
    (now : ℕ) (a : String) (rows : Table) (s : Send) → Passes now a rows s → CanOpen now a rows s
Passes-CanOpen now a rows s (m, p, d, x, l) = (
  m,
  (eq_iff s.access_id a).0 (and_left _ _ p),
  null_none s.deleted_at (and_right (str_eq s.access_id a) _ p),
  d,
  not_past s.expiration_date now x,
  below s.max_access_count s.access_count l,
)

pub no_password : (o : Option String) → non_empty o ≡ false → NoPassword o
no_password none h = inl refl
no_password (some p) h = inr (ap some ((eq_iff p "").0 (ground arith)))

pub some_password : (o : Option String) → non_empty o ≡ true → Locked o look
some_password none h = cc
some_password (some p) h = (p, refl, λ e. let t = (eq_iff p "").1 e in absurd (ground arith))

pub fitting :
    (ext : Services) (o : Option String) (given : String)
    → password_matches ext o given ≡ true
    → Unlocked ext o (unlock given)
fitting ext none given h = inl (inl refl)
fitting ext (some p) given h = elim (Bool-cases (str_eq p "")) [
  | inl t ↦ inl (inr (ap some ((eq_iff p "").0 t)))
  | inr f ↦ inr (p, refl, rw f at h)
]

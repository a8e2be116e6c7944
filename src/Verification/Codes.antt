-- ===== src/Verification/Codes.antt =====
-- The table of codes after a deletion by email.
use passwall_server.Base.{
  String, Bool, false, not, List, IsGorm, Answers, Result, ok, err, ◌≡◌, refl, ap, str_eq, keep,
  keep_sound, Memᴰ, commit_value, arith,
}
use passwall_server.Verification.Record.{
  VerificationCode, Store, Engines, key, rekey, user_key, user_rekey, with_codes, delete_by_email,
}

-- The engines behave as gorm is relied on to.
pub record IsReliable (db : Engines) : Type 0 where
  pub codes : IsGorm key rekey db.codes
  pub users : IsGorm user_key user_rekey db.users

-- No statement fails.
pub record AllAnswer (db : Engines) : Type 0 where
  pub codes : Answers db.codes
  pub users : Answers db.users

abbrev pub of_others : String → VerificationCode → Bool
of_others email c = not (str_eq c.email email)

pub with_codes-users :
    {A : Type 0} (s : Store) (r : Result (A × List VerificationCode))
    → (commit_value (with_codes s r) s).1.users ≡ s.users
unfolding commit_value with_codes
with_codes-users s (ok (n, t)) = refl
with_codes-users s (err e) = refl

pub deleted_lem :
    (db : Engines) (email : String) (s : Store)
    → IsReliable db
    → AllAnswer db
    → (delete_by_email db email s).1 ≡ record s { codes = keep (of_others email) s.codes }
unfolding commit_value with_codes
deleted_lem db email s reliable answers =
    let (n, t, h) = answers.codes.delete_where_answers (λ c. str_eq c.email email) s.codes in
    let (k, e) = reliable.codes.delete_where_ok (λ c. str_eq c.email email) n s.codes t h in
    rw h (ap (λ x. record s { codes = x }) e)

pub deleted-none :
    (email : String) (codes : List VerificationCode) (c : VerificationCode)
    → Memᴰ c (keep (of_others email) codes)
    → str_eq c.email email ≡ false
deleted-none email codes c m = let (k, t) = keep_sound (of_others email) codes c m in ground arith

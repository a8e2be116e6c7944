-- ===== src/Verification/Success.antt =====
-- What a verification that succeeds went through.
use passwall_server.Base.{
  ℕ, String, Bool, true, false, List, Result, ok, err, ◌≡◌, refl, sym, ap, subst, ◌∙◌, ◌⊎◌, inl,
  inr, ◌&&◌, str_eq, Memᴰ, OnSuccess, on_success, success_map, lift_error_success,
  write_error_success, logged_call_success, translate, map_error, map_error_ok, and_left, and_right,
  upsert-mem_self, wrap,
}
use passwall_server.Verification.Record.{
  code_error, VerificationCode, User, Store, Engines, user_key, is_expired, delete_by_email,
  with_users,
}
use passwall_server.Verification.Service.{mark_verified, verify_live, verify_code, verify_error}
use passwall_server.Verification.Codes.{IsReliable, with_codes-users}

-- The code that was given.
abbrev pub Given : ℕ → String → String → Store → VerificationCode → Type 0
Given now email code s c =
    Memᴰ c s.codes
    × (str_eq c.email email ≡ true)
    × (str_eq c.code code ≡ true)
    × (is_expired now c ≡ false)

-- The user is verified already, or is saved as verified; the codes of the email are deleted.
abbrev pub Marked : Engines → User → String → Store → Store → Type 0
Marked db u email s s' =
    ((u.is_verified ≡ true) × (s' ≡ (delete_by_email db email s).1))
    ⊎ ((t : List User) × (db.users.save (record u { is_verified = true }) s.users ≡ ok t)
        × (s' ≡ (delete_by_email db email (record s { users = t })).1))

abbrev pub Verified : Engines → (String → String) → ℕ → String → String → Store → Store → Type 0
Verified db lower now email code s s' =
    (c : VerificationCode) × (u : User) × Given now email code s c
    × (Memᴰ u s.users × (str_eq (lower u.email) (lower email) ≡ true))
    × Marked db u email s s'

with_users_ok :
    (s s' : Store) (r : Result (List User))
    → with_users s r ≡ ok s'
    → (t : List User) × (r ≡ ok t) × (s' ≡ record s { users = t })
unfolding with_users
with_users_ok s s' (ok t) h = (t, refl, cc)
with_users_ok s s' (err e) h = cc

module _ (db : Engines) (reliable : IsReliable db) (to_lower lower : String → String) where
  mark_success :
      (b : Bool) (u : User) (email : String) (s : Store)
      → u.is_verified ≡ b
      → OnSuccess (λ x s'. Marked db u email s s') (mark_verified db to_lower lower b u email s)
  unfolding mark_verified
  mark_success true u email s v =
      logged_call_success _ (delete_by_email db email s) _ (inl (v, refl))
  mark_success false u email s v =
      write_error_success _ (wrap "failed to update user")
        (with_users s (db.users.save (record u { is_verified = true }) s.users)) _ s
        λ s1 h.
          let (t, e, same) = with_users_ok s s1 _ h in
          logged_call_success _ (delete_by_email db email s1) _
            (inr (t, e, ap (λ x. (delete_by_email db email x).1) same))

  live_success :
      (b : Bool) (now : ℕ) (email code : String) (s : Store) (c : VerificationCode)
      → Memᴰ c s.codes × (str_eq c.email email ≡ true) × (str_eq c.code code ≡ true)
      → is_expired now c ≡ b
      → OnSuccess
          (λ x s'. Verified db lower now email code s s')
          (verify_live db to_lower lower b email s)
  unfolding verify_live
  live_success true now email code s c g x = logged_call_success _ (delete_by_email db email s) _ tt
  live_success false now email code s c g x =
      lift_error_success _ (wrap "failed to get user")
        (map_error translate (db.users.first (λ u. str_eq (lower u.email) (lower email)) s.users)) _
        s
        λ u h.
          let (m, t) = reliable.users.first_found _ s.users u (map_error_ok translate _ h) in
          success_map _ _ (mark_verified db to_lower lower u.is_verified u email s)
            (λ a s' k. (c, u, (g.0, g.1, g.2, x), (m, t), k))
            (mark_success u.is_verified u email s refl)

  pub verify_success :
      (now : ℕ) (given code : String) (s : Store)
      → OnSuccess
          (λ x s'. Verified db lower now (to_lower given) code s s')
          (verify_code db to_lower lower now given code s)
  unfolding verify_code
  verify_success now given code s =
      lift_error_success _ verify_error
        (map_error code_error
          (db.codes.first (λ c. str_eq c.email (to_lower given) && str_eq c.code code) s.codes))
        _ s
        λ c h.
          let (m, t) = reliable.codes.first_found _ s.codes c (map_error_ok code_error _ h) in
          live_success (is_expired now c) now (to_lower given) code s c
            (m, and_left _ _ t, and_right _ _ t) refl

deletion-users :
    (db : Engines) (email : String) (s : Store) → (delete_by_email db email s).1.users ≡ s.users
deletion-users db email s =
    with_codes-users s (db.codes.delete_where (λ c. str_eq c.email email) s.codes)

-- A verification that succeeds was given a code of the email that is stored and has not expired,
-- and a user of the email is verified afterwards.
pub verify_code_sound :
    (db : Engines) (to_lower lower : String → String) (now : ℕ) (given code : String) (s s' : Store)
    → IsReliable db
    → verify_code db to_lower lower now given code s ≡ (ok tt, s')
    → ((c : VerificationCode) × Given now (to_lower given) code s c)
      × ((u : User) × Memᴰ u s'.users
          × (str_eq (lower u.email) (lower (to_lower given)) ≡ true)
          × (u.is_verified ≡ true))
verify_code_sound db to_lower lower now given code s s' reliable h =
    let (c, u, g, (m, t), marked) =
      on_success (λ x. Verified db lower now (to_lower given) code s)
        (verify_code db to_lower lower now given code s) tt s'
        (verify_success db reliable to_lower lower now given code s) h in
    (
      (c, g),
      elim marked [
        | inl (v, e) ↦ (
          u,
          subst (Memᴰ u) (sym (ap (λ x. x.users) e ∙ deletion-users db (to_lower given) s)) m,
          t,
          v,
        )
        | inr (us, saved, e) ↦
            let here =
              subst (Memᴰ (record u { is_verified = true }))
                (sym (reliable.users.save_ok (record u { is_verified = true }) s.users us saved))
                (upsert-mem_self user_key (record u { is_verified = true }) s.users) in
            (
              record u { is_verified = true },
              subst (Memᴰ _)
                  (sym (
                    ap (λ x. x.users) e
                    ∙ deletion-users db (to_lower given) (record s { users = us })))
                  here,
              t,
              refl,
            )
      ],
    )

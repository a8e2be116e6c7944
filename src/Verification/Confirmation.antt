-- ===== src/Verification/Confirmation.antt =====
-- A generated code can be used, and only once.
use passwall_server.Base.{
  ℕ, ◌+◌, ◌≤◌, String, Bool, true, false, List, [], ◌∷◌, ◌++◌, Result, ok, err, ◌≡◌, refl, sym, ap,
  subst, ◌∙◌, inl, inr, ◌&&◌, str_eq, Memᴰ, mem-append_one, mem-append_last, OnSuccess, on_success,
  lift_error_success, and_left, and_intro, wrap, after, map_outcome, lift, commit, drop_error, keep,
  eq_iff, arith, call_error_success, logged_call_success, commit_value_success, ltb,
}
use passwall_server.Verification.Record.{
  VerificationCode, User, Store, Engines, is_expired, delete_by_email, with_users, with_codes,
  create,
}
use passwall_server.Verification.Service.{
  generate_code, mark_verified, verify_live, verify_code, code_invalid,
}
use passwall_server.Verification.Codes.{IsReliable, AllAnswer, deleted_lem, deleted-none, of_others}
use passwall_server.Verification.Success.{Verified, verify_success}

abbrev NoCodes : String → Store → Type 0
NoCodes email s = (c : VerificationCode) → Memᴰ c s.codes → str_eq c.email email ≡ false

not_after : (later now x : ℕ) → x ≡ now + 900 → later ≤ now + 900 → ltb x later ≡ false
not_after later now x e le = ground arith

clash : (b : Bool) → b ≡ false → b ≡ true → ⊥
clash b f t = ground arith

-- The one code of the email is the new one.
abbrev OneCode : ℕ → String → String → Store → Store → Type 0
OneCode now email code s s' =
    (c : VerificationCode) × (c.email ≡ email)
    × (c.code ≡ code)
    × (c.expires_at ≡ now + 900)
    × (s'.codes ≡ keep (of_others email) s.codes ++ c ∷ [])
    × (s'.users ≡ s.users)

with_codes_ok :
    {A : Type 0} (s s' : Store) (a : A) (r : Result (A × List VerificationCode))
    → with_codes s r ≡ ok (a, s')
    → (t : List VerificationCode) × (r ≡ ok (a, t)) × (s' ≡ record s { codes = t })
unfolding with_codes
with_codes_ok s s' a (ok (b, t)) h = (t, cc, cc)
with_codes_ok s s' a (err e) h = cc

module _ (db : Engines) (reliable : IsReliable db) (answers : AllAnswer db)
    (to_lower lower : String → String) where
  deleted-NoCodes : (email : String) (s : Store) → NoCodes email (delete_by_email db email s).1
  deleted-NoCodes email s c m =
      deleted-none email s.codes c
        (subst (Memᴰ c) (ap (λ x. x.codes) (deleted_lem db email s reliable answers)) m)

  Verified-NoCodes :
      (now : ℕ) (email code : String) (s s' : Store)
      → Verified db lower now email code s s'
      → NoCodes email s'
  Verified-NoCodes now email code s s' (c, u, g, m, inl (v, e)) = rw e (deleted-NoCodes email s)
  Verified-NoCodes now email code s s' (c, u, g, m, inr (t, h, e)) =
      rw e (deleted-NoCodes email (record s { users = t }))

  -- Where the email has no codes, none is accepted.
  refused :
      (now : ℕ) (given code : String) (s : Store)
      → NoCodes (to_lower given) s
      → (verify_code db to_lower lower now given code s).0 ≡ err code_invalid
  unfolding verify_code lift after map_outcome
  refused now given code s no_codes =
      elim (answers.codes.first_answers (λ c. str_eq c.email (to_lower given) && str_eq c.code code)
        s.codes) [
          | inl (c, h) ↦
              let (m, t) = reliable.codes.first_found _ s.codes c h in
              absurd (
                let f = no_codes c m in
                let g = and_left (str_eq c.email (to_lower given)) (str_eq c.code code) t in
                ground arith)
          | inr h ↦ rw h refl
        ]

  generate_success :
      (now : ℕ) (drawn : Result String) (given : String) (s : Store)
      → OnSuccess
          (λ code s'. OneCode now (to_lower given) code s s')
          (generate_code db to_lower lower now drawn given s)
  unfolding generate_code
  generate_success now drawn given s =
      lift_error_success _ (wrap "failed to generate code") drawn _ s λ code h.
        let c : VerificationCode = record {
          id = 0;
          email = to_lower given;
          code = code;
          expires_at = now + 900;
        } in
        let s1 = (delete_by_email db (to_lower given) s).1 in
        let gone = deleted_lem db (to_lower given) s reliable answers in
        call_error_success _ (λ saved s'. OneCode now (to_lower given) code s s')
          (wrap "failed to save verification code") (create db c s) _
          (logged_call_success _ (delete_by_email db (to_lower given) s) _ (
            commit_value_success _ (with_codes s1 (db.codes.create c s1.codes)) s1 λ a s' e.
              let (t, r, es) = with_codes_ok s1 s' a (db.codes.create c s1.codes) e in
              let (row, added, other) = reliable.codes.create_ok c s1.codes a t r in
              (
                a,
                ap (λ x. x.email) row,
                ap (λ x. x.code) row,
                ap (λ x. x.expires_at) row,
                ap (λ x. x.codes) es ∙ added ∙ ap (λ x. x.codes ++ a ∷ []) gone,
                ap (λ x. x.users) es ∙ ap (λ x. x.users) gone,
              )))
          λ saved s' one. one

  mark_ok :
      (b : Bool) (u : User) (email : String) (s : Store)
      → (mark_verified db to_lower lower b u email s).0 ≡ ok tt
  unfolding mark_verified after drop_error map_outcome commit with_users
  mark_ok true u email s = refl
  mark_ok false u email s =
      let (t, h) = answers.users.save_answers (record u { is_verified = true }) s.users in rw h refl

  live_ok :
      (email : String) (s : Store) (u : User)
      → Memᴰ u s.users
      → str_eq (lower u.email) (lower email) ≡ true
      → (verify_live db to_lower lower false email s).0 ≡ ok tt
  unfolding verify_live after map_outcome lift
  live_ok email s u m t =
      let found : User → Bool = λ x. str_eq (lower x.email) (lower email) in
      elim (answers.users.first_answers found s.users) [
        | inl (v, h) ↦ rw h (mark_ok v.is_verified v email s)
        | inr h ↦ absurd (let f = reliable.users.first_missing found s.users h u m in ground arith)
      ]

  verify_new :
      (now later : ℕ) (given code : String) (s s' : Store) (u : User)
      → OneCode now (to_lower given) code s s'
      → later ≤ now + 900
      → Memᴰ u s.users
      → str_eq (lower u.email) (lower (to_lower given)) ≡ true
      → (verify_code db to_lower lower later given code s').0 ≡ ok tt
  unfolding verify_code after map_outcome lift
  verify_new now later given code s s' u (c, ee, ec, ex, es, eu) le m t =
      let found : VerificationCode → Bool =
        λ x. str_eq x.email (to_lower given) && str_eq x.code code in
      let live = live_ok (to_lower given) s' u (subst (Memᴰ u) (sym eu) m) t in
      elim (answers.codes.first_answers found s'.codes) [
        | inl (r, h) ↦
            let (k, p) = reliable.codes.first_found found s'.codes r h in
            elim (mem-append_one r c _ (subst (Memᴰ r) es k)) [
              | inl old ↦ absurd (
                  let f = deleted-none (to_lower given) s.codes r old in
                  let g = and_left (str_eq r.email (to_lower given)) (str_eq r.code code) p in
                  ground arith)
              | inr same ↦
                  let fresh : is_expired later r ≡ false =
                    ap (is_expired later) same ∙ not_after later now c.expires_at ex le in
                  rw (h, fresh) live
            ]
        | inr h ↦ absurd (
            let f =
              reliable.codes.first_missing found s'.codes h c
                (subst (Memᴰ c) (sym es) (mem-append_last c _)) in
            let g =
              and_intro _ _ ((eq_iff c.email (to_lower given)).1 ee) ((eq_iff c.code code).1 ec) in
            clash _ f g)
      ]

-- Where no statement fails and a user has the email: the code that is generated for an email
-- verifies it, in any spelling of the email that gives the same lower case, within 15 minutes.
pub generate-verify :
    (db : Engines) (to_lower lower : String → String) (now later : ℕ) (drawn : Result String)
    (given again code : String) (s s' : Store) (u : User)
    → IsReliable db
    → AllAnswer db
    → generate_code db to_lower lower now drawn given s ≡ (ok code, s')
    → to_lower again ≡ to_lower given
    → later ≤ now + 900
    → Memᴰ u s.users
    → str_eq (lower u.email) (lower (to_lower given)) ≡ true
    → (verify_code db to_lower lower later again code s').0 ≡ ok tt
generate-verify db to_lower lower now later drawn given again code s s' u reliable answers h same le
      m t =
    let one =
      on_success (λ x. OneCode now (to_lower given) x s)
        (generate_code db to_lower lower now drawn given s) code s'
        (generate_success db reliable answers to_lower lower now drawn given s) h in
    verify_new db reliable answers to_lower lower now later again code s s' u
      (subst (λ e. OneCode now e code s s') (sym same) one) le m
      (ap (λ e. str_eq (lower u.email) (lower e)) same ∙ t)

-- Where no statement fails: after a verification that succeeds, no code of the email is accepted.
pub verify_once :
    (db : Engines) (to_lower lower : String → String) (now later : ℕ) (given code other : String)
    (s s' : Store)
    → IsReliable db
    → AllAnswer db
    → verify_code db to_lower lower now given code s ≡ (ok tt, s')
    → (verify_code db to_lower lower later given other s').0 ≡ err code_invalid
verify_once db to_lower lower now later given code other s s' reliable answers h =
    refused db reliable answers to_lower lower later given other s' (
      Verified-NoCodes db reliable answers to_lower lower now (to_lower given) code s s' (
        on_success (λ x. Verified db lower now (to_lower given) code s)
          (verify_code db to_lower lower now given code s) tt s'
          (verify_success db reliable to_lower lower now given code s) h))

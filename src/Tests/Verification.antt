-- ===== src/Tests/Verification.antt =====
-- A user who verifies an email address with a code.
use passwall_server.Base.{
  String, true, false, [], ◌∷◌, memory, memory-IsGorm, memory-Answers, ok, err, ◌≡◌, refl, arith,
  Memᴰ, after, map_outcome, lift, commit, commit_value, drop_error, first_row, keep, upsert,
  next_key, str_eq,
}
use passwall_server.Verification.Record.{
  VerificationCode, User, Store, Engines, key, rekey, user_key, user_rekey, with_codes, with_users,
}
use passwall_server.Verification.Service.{
  generate_code, verify_code, verify_live, mark_verified, code_invalid,
}
use passwall_server.Verification.Codes.{IsReliable, AllAnswer}
use passwall_server.Verification.Success.{Given, verify_code_sound}
use passwall_server.Verification.Confirmation.{generate-verify, verify_once}

abbrev db : Engines
db = record { codes = memory key rekey; users = memory user_key user_rekey }

db-IsReliable : IsReliable db
db-IsReliable = record {
  codes = memory-IsGorm key rekey (λ k r. refl);
  users = memory-IsGorm user_key user_rekey (λ k r. refl);
}

db-AllAnswer : AllAnswer db
db-AllAnswer = record {
  codes = memory-Answers key rekey;
  users = memory-Answers user_key user_rekey;
}

abbrev same : String → String
same e = e

abbrev user : User
user = record { id = 1; email = "a@b"; is_verified = false }

abbrev before : Store
before = record { codes = []; users = user ∷ [] }

abbrev sent : VerificationCode
sent = record { id = 1; email = "a@b"; code = "K3"; expires_at = 1000 }

abbrev waiting : Store
waiting = record { codes = sent ∷ []; users = user ∷ [] }

abbrev done : Store
done = record { codes = []; users = record user { is_verified = true } ∷ [] }

generated : generate_code db same same 100 (ok "K3") "a@b" before ≡ (ok "K3", waiting)
unfolding generate_code after map_outcome lift commit_value drop_error with_codes keep next_key
generated = refl

verified : verify_code db same same 200 "a@b" "K3" waiting ≡ (ok tt, done)
unfolding verify_code verify_live mark_verified after map_outcome lift commit commit_value
    drop_error with_codes with_users keep upsert first_row
verified = refl

generate-verify_example : (verify_code db same same 200 "a@b" "K3" waiting).0 ≡ ok tt
generate-verify_example =
    generate-verify db same same 100 200 (ok "K3") "a@b" "a@b" "K3" before waiting user
      db-IsReliable db-AllAnswer generated refl (omega arith) (Memᴰ.head refl) refl

verify_once_example : (verify_code db same same 300 "a@b" "K3" done).0 ≡ err code_invalid
verify_once_example =
    verify_once db same same 200 300 "a@b" "K3" "K3" waiting done db-IsReliable db-AllAnswer
      verified

verify_code_sound_example :
    ((c : VerificationCode) × Given 200 "a@b" "K3" waiting c)
    × ((u : User) × Memᴰ u done.users × (str_eq u.email "a@b" ≡ true) × (u.is_verified ≡ true))
verify_code_sound_example =
    verify_code_sound db same same 200 "a@b" "K3" waiting done db-IsReliable verified

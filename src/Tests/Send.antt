-- ===== src/Tests/Send.antt =====
-- A send with a limit of two accesses, opened three times.
use passwall_server.Base.{
  Error, ◌⊎◌, ℕ, ◌+◌, ◌≤◌, ◌<◌, none, some, String, false, List, [], ◌∷◌, Gorm, IsGorm, Answers,
  memory, memory-IsGorm, memory-Answers, ok, err, ◌≡◌, ◌↔◌, refl, sym, ◌∙◌, arith, Memᴰ, mem-cons,
  inl, inr, not_found, after, map_outcome, lift, require, commit, commit_value, drop_error,
  first_row, keep, count_rows, next_key, str_eq,
}
use passwall_server.Send.Record.{Send, Table, key, rekey, load}
use passwall_server.Send.Service.{
  Services, CreateSendRequest, new_send, dto_of, release, create_send, get_by_access_id,
  verify_send_password, cleanup_expired,
}
use passwall_server.Send.Rows.{OneSend}
use passwall_server.Send.Conditions.{Attempt, look, unlock}
use passwall_server.Send.Access.{attempt, attempt-Outcome, Outcome}
use passwall_server.Send.Limit.{times_given, payloads_within_limit}
use passwall_server.Send.Ownership.{remove, after_change, change_keeps_others}
use passwall_server.Send.Retention.{Due, Kept, cleanup-create}
use passwall_server.Send.Sharing.{create-open}

abbrev db : Gorm Send
db = memory key rekey

db-IsGorm : IsGorm key rekey db
db-IsGorm = memory-IsGorm key rekey (λ k s. refl)

db-Answers : Answers db
db-Answers = memory-Answers key rekey

abbrev ext : Services
ext = record {
  trim_space = λ s. s;
  hash_password = λ p. ok p;
  compare_password = str_eq;
  creators = λ u. ok (some "ann@example.com");
  remove_send_policy = λ o. err not_found;
  members = λ o u. err not_found;
}

abbrev req : CreateSendRequest
req = record {
  name = "note";
  organization_id = 0;
  type = "text";
  data_text = "cipher";
  notes = none;
  password = none;
  max_access_count = some 2;
  expiration_date = some 500;
  deletion_date = some 900;
  hide_email = false;
}

abbrev sent : Send
sent = rekey 1 (new_send 100 "u1" 7 req "a1" none)

abbrev table : Table
table = sent ∷ []

created : create_send db ext 100 "u1" (ok "a1") 7 req [] ≡ (ok sent, table)
unfolding create_send after map_outcome lift require commit_value next_key
created = refl

create-open_example :
    (get_by_access_id db ext 200 "a1" table).0
    ≡ ok (dto_of sent (some "ann@example.com") (some ("cipher", none)))
create-open_example =
    create-open db ext 100 200 "u1" (ok "a1") 7 req [] table sent (some "ann@example.com") db-IsGorm
      db-Answers created (λ r m. elim m [ ]) refl refl refl refl

abbrev run : List (ℕ × String × Attempt)
run = (200, "a1", look) ∷ (210, "a1", unlock "x") ∷ (220, "a1", look) ∷ (600, "b", look) ∷ []

one_send : OneSend "a1" table
one_send x y m n p q = elim (mem-cons m) [
  | inl e ↦ elim (mem-cons n) [ inl f ↦ e ∙ sym f | inr k ↦ elim k [ ] ]
  | inr k ↦ elim k [ ]
]

payloads_within_limit_example : times_given db ext "a1" run table + sent.access_count ≤ 2
payloads_within_limit_example =
    payloads_within_limit db ext "a1" 2 run table sent db-IsGorm db-Answers one_send
      (Memᴰ.head refl) refl refl (omega arith)

given_twice : times_given db ext "a1" run table ≡ 2
unfolding times_given attempt get_by_access_id verify_send_password release load after map_outcome
    lift require commit drop_error first_row
given_twice = refl

abbrev opened : Table
opened = (record sent { access_count = 1 }) ∷ []

opened_once :
    attempt db ext 200 "a1" look table
    ≡ (ok (dto_of sent (some "ann@example.com") (some ("cipher", none))), opened)
unfolding attempt get_by_access_id release load after map_outcome lift require commit drop_error
    first_row
opened_once = refl

attempt-Outcome_example :
    Outcome db ext 200 "a1" look table
      (dto_of sent (some "ann@example.com") (some ("cipher", none)))
      opened
attempt-Outcome_example =
    attempt-Outcome db ext 200 "a1" look table opened
      (dto_of sent (some "ann@example.com") (some ("cipher", none))) db-IsGorm opened_once

change_keeps_others_example : Memᴰ sent (after_change db ext 8 "u1" (remove 300) table)
change_keeps_others_example =
    change_keeps_others db ext 8 "u1" (remove 300) table sent db-IsGorm (tt, tt) (Memᴰ.head refl)
      (λ e. omega (arith, e))

cleaned : cleanup_expired db ext 900 table ≡ (ok 1, [])
unfolding cleanup_expired commit_value count_rows keep
cleaned = refl

cleanup-create_example :
    ((r : Send) → Memᴰ r [] ↔ (Memᴰ r table × Kept 900 r))
    × ((due : ℕ) × Due 100 req.deletion_date due
        × (((900 < due) × Memᴰ sent [])
            ⊎ ((due ≤ 900)
                × ((e : Error) × ((attempt db ext 950 sent.access_id (unlock "x") []).0 ≡ err e)))))
cleanup-create_example =
    cleanup-create db ext 100 900 950 "u1" (ok "a1") 7 req (unlock "x") 1 [] table [] sent db-IsGorm
      created (λ r m. elim m [ ]) cleaned

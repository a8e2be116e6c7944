-- ===== src/Send/Sharing.antt =====
-- What is created can be opened.
use passwall_server.Base.{
  ℕ, Option, none, some, String, Bool, true, false, not, Gorm, IsGorm, Answers, Result, ok,
  ok-injective, ◌≡◌, refl, sym, ap, subst, ◌∙◌, Memᴰ, mem-append_one, mem-append_last, OnSuccess,
  on_success, require_success, lift_success, lift_error_success, create_end_success, wrap, inl, inr,
  arith, str_eq, after, map_outcome, lift, require, drop_error, eq_iff, and_intro,
}
use passwall_server.Send.Record.{
  Send, Table, key, rekey, by_access_id, load, before, reached, has_password, non_empty,
}
use passwall_server.Send.Service.{
  Services, CreateSendRequest, new_send, dto_of, create_send, get_by_access_id, release,
  check_create_policy, password_for_create,
}

-- How a send comes to be.
abbrev pub Made :
    Gorm Send
    → Services
    → ℕ
    → String
    → Result String
    → ℕ
    → CreateSendRequest
    → Table
    → Send
    → Table
    → Type 0
Made db ext now uuid drawn creator_id req rows s rows' =
    (access_id : String) × (password : Option String) × (drawn ≡ ok access_id)
    × (password_for_create ext req.password ≡ ok password)
    × (db.create (new_send now uuid creator_id req access_id password) rows ≡ ok (s, rows'))

module _ (db : Gorm Send) (ext : Services) where
  pub create-Made :
      (now : ℕ) (uuid : String) (drawn : Result String) (creator_id : ℕ) (req : CreateSendRequest)
      (rows : Table)
      → OnSuccess
          (Made db ext now uuid drawn creator_id req rows)
          (create_send db ext now uuid drawn creator_id req rows)
  unfolding create_send
  create-Made now uuid drawn creator_id req rows =
      require_success _ (not (str_eq (ext.trim_space req.name) "")) _ _ rows λ a.
        require_success _ (not (str_eq (ext.trim_space req.data_text) "")) _ _ rows λ b.
          lift_success _ (check_create_policy ext req.organization_id creator_id) _ rows λ c d.
            lift_error_success _ (wrap "failed to generate access ID") drawn _ rows λ i e.
              lift_success _ (password_for_create ext req.password) _ rows λ p f.
                create_end_success _ _ (db.create (new_send now uuid creator_id req i p) rows) rows
                  λ s rows' g. (i, p, e, f, g)

  -- Loading the one row that satisfies a condition.
  load_one :
      (p : Send → Bool) (rows : Table) (s : Send) (creator : Option String)
      → IsGorm key rekey db
      → Answers db
      → Memᴰ s rows
      → p s ≡ true
      → ((r : Send) → Memᴰ r rows → p r ≡ true → r ≡ s)
      → ext.creators s.creator_id ≡ ok creator
      → load db ext.creators p rows ≡ (ok (s, creator), rows)
  unfolding load lift after
  load_one p rows s creator reliable answers m t one c = elim (answers.first_answers p rows) [
    | inl (r, h) ↦
        let (k, q) = reliable.first_found p rows r h in
        let same = one r k q in rw (h, same) (rw c refl)
    | inr h ↦ absurd (let f = reliable.first_missing p rows h s m in ground arith)
  ]

  release_plain :
      (b : Bool) (s : Send) (creator : Option String) (rows : Table)
      → b ≡ false
      → (release db ext b s creator rows).0 ≡ ok (dto_of s creator (some (s.data_text, s.notes)))
  unfolding release after drop_error
  release_plain true s creator rows h = cc
  release_plain false s creator rows h = refl

  open_lem :
      (now : ℕ) (a : String) (rows : Table) (s : Send) (creator : Option String)
      → load db ext.creators (by_access_id a) rows ≡ (ok (s, creator), rows)
      → s.disabled ≡ false
      → before s.expiration_date now ≡ false
      → reached s.max_access_count s.access_count ≡ false
      → has_password s ≡ false
      → (get_by_access_id db ext now a rows).0 ≡ ok (dto_of s creator (some (s.data_text, s.notes)))
  unfolding get_by_access_id after map_outcome require release drop_error
  open_lem now a rows s creator h d x l p =
      simp (h, d, x, l) (release_plain (has_password s) s creator _ p)

self_found : (s : Send) → s.deleted_at ≡ none → by_access_id s.access_id s ≡ true
self_found s d = rw d (and_intro _ true ((eq_iff s.access_id s.access_id).1 refl) refl)

-- Where no statement fails: a send that is created without a password is opened, by the access
-- identifier that it was given, with the data and the notes of the request, by anyone, at any time
-- up to its expiration, provided no other send had that identifier, its limit is not 0, and its
-- creator can be read.
pub create-open :
    (db : Gorm Send) (ext : Services) (now later : ℕ) (uuid : String) (drawn : Result String)
    (creator_id : ℕ) (req : CreateSendRequest) (rows rows' : Table) (s : Send)
    (creator : Option String)
    → IsGorm key rekey db
    → Answers db
    → create_send db ext now uuid drawn creator_id req rows ≡ (ok s, rows')
    → ((r : Send) → Memᴰ r rows → by_access_id s.access_id r ≡ false)
    → req.password ≡ none
    → before req.expiration_date later ≡ false
    → reached req.max_access_count 0 ≡ false
    → ext.creators creator_id ≡ ok creator
    → (get_by_access_id db ext later s.access_id rows').0
      ≡ ok (dto_of s creator (some (req.data_text, req.notes)))
create-open db ext now later uuid drawn creator_id req rows rows' s creator reliable answers h fresh
      nop live below c =
    let (i, p, e, f, g) =
      on_success (Made db ext now uuid drawn creator_id req rows)
        (create_send db ext now uuid drawn creator_id req rows) s rows'
        (create-Made db ext now uuid drawn creator_id req rows) h in
    let (row, added, other) =
      reliable.create_ok (new_send now uuid creator_id req i p) rows s rows' g in
    let plain : p ≡ none = ok-injective (sym f ∙ ap (password_for_create ext) nop) in
    let here : Memᴰ s rows' = subst (Memᴰ s) (sym added) (mem-append_last s rows) in
    let found =
      load_one db ext (by_access_id s.access_id) rows' s creator reliable answers here
        (self_found s (ap (λ x. x.deleted_at) row))
        (λ r m t. elim (mem-append_one r s rows (subst (Memᴰ r) added m)) [
          | inl old ↦ absurd (let no = fresh r old in ground arith)
          | inr e ↦ e
        ])
        (ap (λ x. ext.creators x.creator_id) row ∙ c) in
    open_lem db ext later s.access_id rows' s creator found (ap (λ x. x.disabled) row)
      (ap (λ x. before x.expiration_date later) row ∙ live)
      (ap (λ x. reached x.max_access_count x.access_count) row ∙ below)
      (ap has_password row ∙ ap non_empty plain)
    ∙ ap (λ x. ok (dto_of s creator (some (x, s.notes)))) (ap (λ x. x.data_text) row)
    ∙ ap (λ x. ok (dto_of s creator (some (req.data_text, x)))) (ap (λ x. x.notes) row)

-- ===== src/Send/Access.antt =====
-- Who is given what of a send.
use passwall_server.Base.{
  subst, ℕ, Option, none, some, String, Bool, true, false, not, M, Gorm, IsGorm, ok, ◌≡◌, refl, ◌⊎◌,
  inl, inr, Memᴰ, OnSuccess, lift_success, require_success, call_error_success, logged_call_success,
  success_map, success_value, on_success, lift_step, same_error_step, require_step,
  logged_call_step, sym, ap, ◌∙◌, ◌||◌, arith, translate,
}
use passwall_server.Send.Record.{
  Send, SendAccessDto, Table, key, rekey, is_expired, is_access_limit_reached, has_password,
  by_access_id, load, increment_access_count,
}
use passwall_server.Send.Rows.{Counted, increment-Counted}
use passwall_server.Send.Conditions.{
  Attempt, look, unlock, Passes, CanOpen, Unlocked, Locked, Passes-CanOpen, no_password,
  some_password, fitting,
}
use passwall_server.Send.Service.{
  Services, dto_of, release, get_by_access_id, password_matches, verify_send_password,
}

-- The payload, and one more access.
abbrev Opened : Gorm Send → Send → Option String → Table → SendAccessDto → Table → Type 0
Opened db s creator rows dto rows' =
    (dto ≡ dto_of s creator (some (s.data_text, s.notes)))
    × (rows' ≡ (increment_access_count db s.id rows).1)

abbrev Withheld : Send → Option String → Table → SendAccessDto → Table → Type 0
Withheld s creator rows dto rows' = (dto ≡ dto_of s creator none) × (rows' ≡ rows)

abbrev Looked : Gorm Send → ℕ → String → Table → SendAccessDto → Table → Type 0
Looked db now access_id rows dto rows' =
    (s : Send) × (creator : Option String) × Passes now access_id rows s
    × (((has_password s ≡ true) × Withheld s creator rows dto rows')
        ⊎ ((has_password s ≡ false) × Opened db s creator rows dto rows'))

abbrev Verified :
    Gorm Send → Services → ℕ → String → String → Table → SendAccessDto → Table → Type 0
Verified db ext now access_id password rows dto rows' =
    (s : Send) × (creator : Option String) × Passes now access_id rows s
    × (password_matches ext s.password password ≡ true)
    × Opened db s creator rows dto rows'

module _ (db : Gorm Send) (reliable : IsGorm key rekey db) (ext : Services) where
  pub load_success :
      (p : Send → Bool) (rows : Table)
      → OnSuccess
          (λ l rows'. Memᴰ l.0 rows × (p l.0 ≡ true) × (rows' ≡ rows))
          (load db ext.creators p rows)
  unfolding load
  load_success p rows = lift_success _ (db.first p rows) _ rows λ s h.
      lift_success _ (ext.creators s.creator_id) _ rows
        λ c k. let (m, t) = reliable.first_found p rows s h in (m, t, refl)

  release_success :
      (b : Bool) (s : Send) (creator : Option String) (rows : Table)
      → OnSuccess
          (λ dto rows'.
            ((b ≡ true) × Withheld s creator rows dto rows')
            ⊎ ((b ≡ false) × Opened db s creator rows dto rows'))
          (release db ext b s creator rows)
  unfolding release
  release_success true s creator rows = inl (refl, (refl, refl))
  release_success false s creator rows =
      logged_call_success _ (increment_access_count db s.id rows) _ (inr (refl, (refl, refl)))

  pub get_success :
      (now : ℕ) (access_id : String) (rows : Table)
      → OnSuccess (Looked db now access_id rows) (get_by_access_id db ext now access_id rows)
  unfolding get_by_access_id
  get_success now access_id rows =
      call_error_success _ _ translate _ _ (load_success (by_access_id access_id) rows) λ l rows1 h.
        require_success _ (not l.0.disabled) _ _ rows1 λ d.
          require_success _ (not (is_expired now l.0)) _ _ rows1 λ x.
            require_success _ (not (is_access_limit_reached l.0)) _ _ rows1 λ c.
              success_map _ _ (release db ext (has_password l.0) l.0 l.1 rows1)
                (λ dto rows2 out. (
                  l.0,
                  l.1,
                  (h.0, h.1, ground arith, ground arith, ground arith),
                  rw (sym h.2) out,
                ))
                (release_success (has_password l.0) l.0 l.1 rows1)

  pub verify_success :
      (now : ℕ) (access_id password : String) (rows : Table)
      → OnSuccess
          (Verified db ext now access_id password rows)
          (verify_send_password db ext now access_id password rows)
  unfolding verify_send_password
  verify_success now access_id password rows =
      call_error_success _ _ translate _ _ (load_success (by_access_id access_id) rows) λ l rows1 h.
        require_success _
          (not (l.0.disabled || (is_expired now l.0 || is_access_limit_reached l.0))) _ _ rows1
          λ d. require_success _ (password_matches ext l.0.password password) _ _ rows1 λ m.
            logged_call_success _ (increment_access_count db l.0.id rows1) _ (
              l.0,
              l.1,
              (h.0, h.1, ground arith, ground arith, ground arith),
              m,
              (refl, ap (λ t. (increment_access_count db l.0.id t).1) h.2),
            )

unfoldable pub attempt : Gorm Send → Services → ℕ → String → Attempt → M Table SendAccessDto
attempt db ext now access_id look = get_by_access_id db ext now access_id
attempt db ext now access_id (unlock password) = verify_send_password db ext now access_id password

abbrev pub Outcome :
    Gorm Send → Services → ℕ → String → Attempt → Table → SendAccessDto → Table → Type 0
Outcome db ext now access_id a rows dto rows' =
    (s : Send) × CanOpen now access_id rows s
    × ((Locked s.password a
          × (dto.data_text ≡ "")
          × (dto.notes ≡ none)
          × (dto.with_password ≡ true)
          × (rows' ≡ rows))
        ⊎ (Unlocked ext s.password a
            × (dto.data_text ≡ s.data_text)
            × (dto.notes ≡ s.notes)
            × Counted db s.id rows rows'))

-- Where a request by access identifier is answered, with a password or without one: a send of the
-- identifier is in the table that is not deleted, not disabled, not expired and below its limit of
-- accesses; and either it has a password and the request gives none, the answer has neither its
-- data nor its notes, and the table is as before, or it has none or the request has one that fits,
-- the answer has the data and the notes, and the table counts one more access of the send and is
-- otherwise as before, except that it is as before where the statement that counts fails.
pub attempt-Outcome :
    (db : Gorm Send) (ext : Services) (now : ℕ) (access_id : String) (a : Attempt)
    (rows rows' : Table) (dto : SendAccessDto)
    → IsGorm key rekey db
    → attempt db ext now access_id a rows ≡ (ok dto, rows')
    → Outcome db ext now access_id a rows dto rows'
unfolding attempt
attempt-Outcome db ext now access_id look rows rows' dto reliable h =
    let (s, c, can, out) =
      on_success (Looked db now access_id rows) (get_by_access_id db ext now access_id rows) dto
        rows' (get_success db reliable ext now access_id rows) h in
    elim out [
      | inl (p, (e, same)) ↦ (
        s,
        Passes-CanOpen now access_id rows s can,
        inl (
          some_password s.password p,
          ap (λ d. d.data_text) e,
          ap (λ d. d.notes) e,
          ap (λ d. d.with_password) e ∙ p,
          same,
        ),
      )
      | inr (p, (e, counted)) ↦ (
        s,
        Passes-CanOpen now access_id rows s can,
        inr (
          no_password s.password p,
          ap (λ d. d.data_text) e,
          ap (λ d. d.notes) e,
          subst (Counted db s.id rows) (sym counted) (increment-Counted db s.id rows reliable),
        ),
      )
    ]
attempt-Outcome db ext now access_id (unlock password) rows rows' dto reliable h =
    let (s, c, can, m, (e, counted)) =
      on_success (Verified db ext now access_id password rows)
        (verify_send_password db ext now access_id password rows) dto rows'
        (verify_success db reliable ext now access_id password rows) h in
    (
      s,
      Passes-CanOpen now access_id rows s can,
      inr (
        fitting ext s.password password m,
        ap (λ d. d.data_text) e,
        ap (λ d. d.notes) e,
        subst (Counted db s.id rows) (sym counted) (increment-Counted db s.id rows reliable),
      ),
    )

pub load-same :
    (db : Gorm Send) (ext : Services) (p : Send → Bool) (rows : Table)
    → (load db ext.creators p rows).1 ≡ rows
unfolding load
load-same db ext p rows =
    lift_step (λ t. t ≡ rows) (db.first p rows) _ rows refl
      λ s h. lift_step (λ t. t ≡ rows) (ext.creators s.creator_id) _ rows refl λ c k. refl

pub load_value :
    (db : Gorm Send) (ext : Services) (p : Send → Bool) (rows : Table) (l : Send × Option String)
    → IsGorm key rekey db
    → (load db ext.creators p rows).0 ≡ ok l
    → Memᴰ l.0 rows × (p l.0 ≡ true)
load_value db ext p rows l reliable h =
    success_value (λ x. Memᴰ x.0 rows × (p x.0 ≡ true)) (load db ext.creators p rows) l
      (success_map _ _ (load db ext.creators p rows) (λ x t q. (q.0, q.1))
        (load_success db reliable ext p rows))
      h

-- A request leaves the table as it is or counts one access.
abbrev pub Touched : Gorm Send → Table → Table → Type 0
Touched db rows rows' =
    (rows' ≡ rows) ⊎ ((id : ℕ) × (rows' ≡ (increment_access_count db id rows).1))

module _ (db : Gorm Send) (ext : Services) where
  release-Touched :
      (b : Bool) (s : Send) (c : Option String) (rows : Table)
      → Touched db rows (release db ext b s c rows).1
  unfolding release
  release-Touched true s c rows = inl refl
  release-Touched false s c rows =
      logged_call_step (Touched db rows) (increment_access_count db s.id rows) _ (inr (s.id, refl))

  pub attempt-Touched :
      (now : ℕ) (id : String) (a : Attempt) (rows : Table)
      → Touched db rows (attempt db ext now id a rows).1
  unfolding attempt get_by_access_id verify_send_password
  attempt-Touched now id look rows =
      same_error_step (Touched db rows) translate (load db ext.creators (by_access_id id) rows) _
        rows (load-same db ext (by_access_id id) rows) (inl refl)
        λ l h. require_step (Touched db rows) _ _ _ rows (inl refl) λ d.
          require_step (Touched db rows) _ _ _ rows (inl refl) λ x.
            require_step (Touched db rows) _ _ _ rows (inl refl)
              λ c. release-Touched (has_password l.0) l.0 l.1 rows
  attempt-Touched now id (unlock password) rows =
      same_error_step (Touched db rows) translate (load db ext.creators (by_access_id id) rows) _
        rows (load-same db ext (by_access_id id) rows) (inl refl)
        λ l h. require_step (Touched db rows) _ _ _ rows (inl refl) λ d.
          require_step (Touched db rows) _ _ _ rows (inl refl) λ m.
            logged_call_step (Touched db rows) (increment_access_count db l.0.id rows) _
              (inr (l.0.id, refl))

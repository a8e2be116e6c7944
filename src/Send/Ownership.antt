-- ===== src/Send/Ownership.antt =====
-- Who changes a send.
use passwall_server.Base.{
  ℕ, some, String, true, false, Gorm, IsGorm, ◌≡◌, ◌≢◌, refl, sym, ap, subst, ◌∙◌, ◌==◌,
  if◌then◌else◌, Memᴰ, Distinct, Distinct-eq, upsert-mem, mem-map, translate, wrap, same_error_step,
  require_step, lift_step, write_error_step, commit_step, Bool-cases, inl, inr, ==→eq, map,
}
use passwall_server.Send.Record.{Send, Table, key, rekey, by_uuid, load}
use passwall_server.Send.Service.{
  Services, UpdateSendRequest, update_send, delete_send, updated, password_for_update,
}
use passwall_server.Send.Access.{load-same, load_value}

-- What a user asks of a send.
pub data Change : Type 0 where
  edit : UpdateSendRequest → Change
  remove : ℕ → Change

-- The table after the request of a user.
unfoldable pub after_change : Gorm Send → Services → ℕ → String → Change → Table → Table
after_change db ext user_id uuid (edit req) rows = (update_send db ext user_id uuid req rows).1
after_change db ext user_id uuid (remove now) rows = (delete_send db ext now user_id uuid rows).1

not_eq : (a b : ℕ) → a ≢ b → (a == b) ≡ false
not_eq a b ne = elim (Bool-cases (a == b)) [ inl t ↦ absurd (ne (==→eq a b t)) | inr f ↦ f ]

module _ (db : Gorm Send) (ext : Services) (reliable : IsGorm key rekey db) (rows : Table)
    (distinct : Distinct key rows) (r : Send) (there : Memᴰ r rows) where
  other_key :
      (s : Send) (user_id : ℕ)
      → Memᴰ s rows
      → (s.creator_id == user_id) ≡ true
      → r.creator_id ≢ user_id
      → key r ≢ key s
  other_key s user_id m own ne e =
      ne (ap (λ x. x.creator_id) (Distinct-eq key rows distinct r s there m e) ∙ ==→eq _ _ own)

  after_change-others :
      (user_id : ℕ) (uuid : String) (c : Change)
      → r.creator_id ≢ user_id
      → Memᴰ r (after_change db ext user_id uuid c rows)
  unfolding after_change update_send delete_send
  after_change-others user_id uuid (edit req) ne =
      same_error_step (Memᴰ r) translate (load db ext.creators (by_uuid uuid) rows) _ rows
        (load-same db ext (by_uuid uuid) rows) there
        λ l h. require_step (Memᴰ r) (l.0.creator_id == user_id) _ _ rows there λ own.
          lift_step (Memᴰ r) (password_for_update ext req.password l.0.password) _ rows there
            λ pw k.
              write_error_step (Memᴰ r) (wrap "failed to update send")
                (db.save (updated req pw l.0) rows) _ rows there
                λ rows' e.
                  let (m, t) = load_value db ext (by_uuid uuid) rows l reliable h in
                  subst (Memᴰ r) (sym (reliable.save_ok (updated req pw l.0) rows rows' e)) (
                    upsert-mem key (updated req pw l.0) r rows there
                      (other_key l.0 user_id m own ne))
  after_change-others user_id uuid (remove now) ne =
      same_error_step (Memᴰ r) translate (load db ext.creators (by_uuid uuid) rows) _ rows
        (load-same db ext (by_uuid uuid) rows) there
        λ l h. require_step (Memᴰ r) (l.0.creator_id == user_id) _ _ rows there λ own.
          commit_step (Memᴰ r) (db.update (λ s. s.id == l.0.id) _ rows) rows there λ rows' e.
            let (m, t) = load_value db ext (by_uuid uuid) rows l reliable h in
            let f : Send → Send =
              λ x. if x.id == l.0.id then record x { deleted_at = some now } else x in
            let same : f r ≡ r = rw (not_eq r.id l.0.id (other_key l.0 user_id m own ne)) refl in
            subst (Memᴰ r) (sym (reliable.update_ok (λ s. s.id == l.0.id) _ rows rows' e))
              (subst (λ y. Memᴰ y (map f rows)) same (mem-map f r rows there))

-- Where identifiers are distinct, a request of a user to update or delete a send leaves the sends
-- of all other users as they are, whether it succeeds or fails.
pub change_keeps_others :
    (db : Gorm Send) (ext : Services) (user_id : ℕ) (uuid : String) (c : Change) (rows : Table)
    (r : Send)
    → IsGorm key rekey db
    → Distinct key rows
    → Memᴰ r rows
    → r.creator_id ≢ user_id
    → Memᴰ r (after_change db ext user_id uuid c rows)
change_keeps_others db ext user_id uuid c rows r reliable distinct there ne =
    after_change-others db ext reliable rows distinct r there user_id uuid c ne

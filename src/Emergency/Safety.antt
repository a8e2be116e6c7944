-- ===== src/Emergency/Safety.antt =====
-- What holds of the emergency accesses after any history of requests, and of the vault that they
-- open.
use passwall_server.Base.{
  ℕ, none, some, String, List, [], ◌∷◌, Gorm, IsGorm, Result, ◌≡◌, refl, ◌⊎◌, inl, inr, Memᴰ, All,
  All-mem, All-weaken, arith, OnSuccess, lift_success, require_success, or_fail_success,
  lift_error_success, logged_success, upsert,
}
use passwall_server.Emergency.Record.{
  invited, accepted, confirmed, recovery_approved, EmergencyAccess, Table, key, rekey,
}
use passwall_server.Emergency.Service.{
  User, Strings, EmergencyVaultResponse, get_vault_for_recovery,
}
use passwall_server.Emergency.Lifecycle.{
  Request, invites, accepts, confirms, requests, approves, rejects, revokes, opens, rekeys, serve,
  Allowed, Issued, Accounted,
}
use passwall_server.Emergency.Accounting.{serve-Accounted, found, approved_of, holds→some}

-- An accepted record names its grantee, and a confirmed one holds the key for the grantee.
pub record IsConsistent (ea : EmergencyAccess) : Type 0 where
  pub has_grantee : (ea.status ≡ invited) ⊎ ((g : ℕ) × (ea.grantee_id ≡ some g))
  pub has_key :
      (ea.status ≡ invited)
      ⊎ ((ea.status ≡ accepted) ⊎ ((k : String) × (ea.key_encrypted ≡ some k)))

module _ {Item : Type 0} (users : ℕ → Result User) (strings : Strings)
    (list_items : ℕ → Result (List Item)) (rekey_fn : String → Result String) where
  -- The requests served so far, the latest first, each with the database as it answered then.
  abbrev pub History : Type 0
  History = List (Gorm EmergencyAccess × Request)

  unfoldable pub run : History → Table
  run [] = []
  run ((db, r) ∷ past) = serve users strings list_items rekey_fn db r (run past)

  abbrev pub Reliable : History → Type 0
  Reliable = All (λ (e : Gorm EmergencyAccess × Request). IsGorm key rekey e.0)

  Allowed-IsConsistent :
      (r : Request) (old new : EmergencyAccess)
      → IsConsistent old
      → Allowed users strings list_items rekey_fn r old new
      → IsConsistent new
  Allowed-IsConsistent (invites uuid g email) old new c a = absurd a
  Allowed-IsConsistent (accepts g u) old new c a =
      rw (a.3) (record { has_grantee = inr (g, refl); has_key = inr (inl refl) })
  Allowed-IsConsistent (confirms g u k) old new c a =
      rw (a.3) (record { has_grantee = ground arith; has_key = inr (inr (k, refl)) })
  Allowed-IsConsistent (requests now g u) old new c a = ground arith
  Allowed-IsConsistent (approves now g u) old new c a = ground arith
  Allowed-IsConsistent (rejects g u) old new c a = ground arith
  Allowed-IsConsistent (revokes g u) old new c a = absurd a
  Allowed-IsConsistent (opens g u) old new c a = ground arith
  Allowed-IsConsistent (rekeys g) old new c a = ground arith

  Issued-IsConsistent :
      (r : Request) (new : EmergencyAccess)
      → Issued users strings list_items rekey_fn r new
      → IsConsistent new
  Issued-IsConsistent (invites uuid g email) new a = record {
    has_grantee = inl (a.2);
    has_key = inl (a.2);
  }
  Issued-IsConsistent (accepts g u) new a = absurd a
  Issued-IsConsistent (confirms g u k) new a = absurd a
  Issued-IsConsistent (requests now g u) new a = absurd a
  Issued-IsConsistent (approves now g u) new a = absurd a
  Issued-IsConsistent (rejects g u) new a = absurd a
  Issued-IsConsistent (revokes g u) new a = absurd a
  Issued-IsConsistent (opens g u) new a = absurd a
  Issued-IsConsistent (rekeys g) new a = absurd a

  -- A property of the rows that every allowed change keeps and every invitation starts with holds
  -- after any history.
  pub rows_inv :
      (P : History → EmergencyAccess → Type 0)
      → ((db : Gorm EmergencyAccess) (r : Request) (past : History) (x : EmergencyAccess)
          → P past x
          → P ((db, r) ∷ past) x)
      → ((db : Gorm EmergencyAccess) (r : Request) (past : History) (old new : EmergencyAccess)
          → P past old
          → Allowed users strings list_items rekey_fn r old new
          → P ((db, r) ∷ past) new)
      → ((db : Gorm EmergencyAccess) (r : Request) (past : History) (new : EmergencyAccess)
          → Issued users strings list_items rekey_fn r new
          → P ((db, r) ∷ past) new)
      → (h : History) → Reliable h
      → All (P h) (run h)
  unfolding run
  rows_inv P older step start [] rel = tt
  rows_inv P older step start ((db, r) ∷ past) rel =
      All-weaken (Accounted users strings list_items rekey_fn r (run past)) (P ((db, r) ∷ past))
        (run ((db, r) ∷ past)) (account (rows_inv P older step start past rel.1))
        (serve-Accounted db rel.0 users strings list_items rekey_fn r (run past))
    where
      account :
          All (P past) (run past)
          → (x : EmergencyAccess) → Accounted users strings list_items rekey_fn r (run past) x
          → P ((db, r) ∷ past) x
      account before x (inl m) = older db r past x (All-mem (P past) x (run past) before m)
      account before x (inr (inl (old, m, a))) =
          step db r past old x (All-mem (P past) old (run past) before m) a
      account before x (inr (inr i)) = start db r past x i

  -- After any history, each record is consistent: an accepted one names its grantee, and one that
  -- is confirmed or further on holds the key for the grantee.
  pub run-IsConsistent : (h : History) → Reliable h → All IsConsistent (run h)
  run-IsConsistent =
      rows_inv (λ _ x. IsConsistent x) (λ _ _ _ _ c. c)
        (λ _ r _ old new c a. Allowed-IsConsistent r old new c a)
        (λ _ r _ new i. Issued-IsConsistent r new i)

  -- What an opened vault shows of the table: a record with this identifier and grantee, its
  -- recovery approved, whose key is in the answer; and the approval is used up if the database
  -- takes the write.
  abbrev pub Opened : ℕ → String → Table → EmergencyVaultResponse Item → Table → Type 0
  Opened g u rows v rows' =
      (ea : EmergencyAccess) × Memᴰ ea rows
      × (ea.uuid ≡ u)
      × (ea.grantee_id ≡ some g)
      × (ea.status ≡ recovery_approved)
      × (ea.key_encrypted ≡ some v.key_encrypted)
      × ((rows' ≡ rows)
          ⊎ (rows'
              ≡ upsert key
                  (record ea {
                    status = confirmed;
                    recovery_init_at = none;
                    recovery_approve_at = none;
                  })
                  rows))

  pub opened :
      (db : Gorm EmergencyAccess)
      → IsGorm key rekey db
      → (g : ℕ) (u : String) (rows : Table)
      → OnSuccess (Opened g u rows) (get_vault_for_recovery db users strings list_items g u rows)
  unfolding get_vault_for_recovery
  opened db gorm g u rows = lift_success (Opened g u rows) _ _ rows λ (ea : EmergencyAccess) e.
      let (m, eu) = found db gorm u rows ea e in
      require_success (Opened g u rows) _ _ _ rows λ eg.
        require_success (Opened g u rows) _ _ _ rows λ es.
          or_fail_success (Opened g u rows) _ _ _ rows λ k ek.
            lift_error_success (Opened g u rows) _ _ _ rows λ grantor _.
              lift_error_success (Opened g u rows) _ _ _ rows λ items _.
                logged_success (Opened g u rows) _ _ rows
                  (ea, m, eu, holds→some _ g eg, approved_of _ es, ek, inl refl)
                  λ rows' h. (
                    ea,
                    m,
                    eu,
                    holds→some _ g eg,
                    approved_of _ es,
                    ek,
                    inr (gorm.save_ok _ rows rows' h),
                  )

-- ===== src/Emergency/Provenance.antt =====
-- The requests behind a vault that GetVaultForRecovery opens
-- (internal/service/emergency_access_service.go).
use passwall_server.Base.{
  ℕ, Option, some, String, List, [], ◌∷◌, Gorm, IsGorm, Result, ok, ◌≡◌, refl, sym, subst, ◌∙◌, ◌⊎◌,
  inl, inr, Memᴰ, All, All-mem, on_success,
}
use passwall_server.Emergency.Record.{
  Status, invited, accepted, confirmed, recovery_requested, recovery_approved, recovery_rejected,
  revoked, EmergencyAccess, key, rekey,
}
use passwall_server.Emergency.Service.{
  User, Strings, EmergencyVaultResponse, get_vault_for_recovery,
}
use passwall_server.Emergency.Lifecycle.{
  Request, invites, accepts, confirms, requests, approves, rejects, revokes, opens, rekeys, Allowed,
  Issued,
}
use passwall_server.Emergency.Safety.{Reliable, run, rows_inv, Opened, opened}

abbrev pub Events : Type 0
Events = List (Gorm EmergencyAccess × Request)

-- A request that satisfies `Q`, with the requests before it, is among the events, the latest first.
abbrev pub Happened : (Request → Events → Type 0) → Events → Type 0
Happened Q [] = ⊥
Happened Q (e ∷ past) = Q e.1 past ⊎ Happened Q past

-- The grantor confirmed the record.
abbrev pub ConfirmedBy : ℕ → String → Events → Type 0
ConfirmedBy g u = Happened λ r past. (k : String) × (r ≡ confirms g u k)

-- The grantee requested the recovery, after a confirmation by the grantor.
abbrev pub RequestedBy : ℕ → ℕ → String → Events → Type 0
RequestedBy g e u = Happened λ r past. (now : ℕ) × (r ≡ requests now e u) × ConfirmedBy g u past

-- The grantor approved the recovery, after a request for it by the grantee.
abbrev pub ApprovedBy : ℕ → ℕ → String → Events → Type 0
ApprovedBy g e u = Happened λ r past. (now : ℕ) × (r ≡ approves now g u) × RequestedBy g e u past

before :
    (Q R : Request → Events → Type 0) (h : Events)
    → ((r : Request) (past : Events) → Q r past → Happened R past)
    → Happened Q h
    → Happened R h
before Q R [] k x = absurd x
before Q R (e ∷ past) k (inl q) = inr (k e.1 past q)
before Q R (e ∷ past) k (inr x) = inr (before Q R past k x)

-- What stands behind a record, by its status.
abbrev Stage : Status → ℕ → Option ℕ → String → Events → Type 0
Stage confirmed g o u h = ConfirmedBy g u h
Stage recovery_requested g o u h = (e : ℕ) × (o ≡ some e) × RequestedBy g e u h
Stage recovery_approved g o u h = (e : ℕ) × (o ≡ some e) × ApprovedBy g e u h
Stage _ g o u h = Unit {0}

abbrev IsBacked : Events → EmergencyAccess → Type 0
IsBacked h ea = Stage ea.status ea.grantor_id ea.grantee_id ea.uuid h

persists :
    (e : Gorm EmergencyAccess × Request) (s : Status) (g : ℕ) (o : Option ℕ) (u : String)
    (h : Events)
    → Stage s g o u h
    → Stage s g o u (e ∷ h)
persists e invited g o u h c = tt
persists e accepted g o u h c = tt
persists e confirmed g o u h c = inr c
persists e recovery_requested g o u h (x, p, c) = (x, p, inr c)
persists e recovery_approved g o u h (x, p, c) = (x, p, inr c)
persists e recovery_rejected g o u h c = tt
persists e revoked g o u h c = tt

module _ {Item : Type 0} (users : ℕ → Result User) (strings : Strings)
    (list_items : ℕ → Result (List Item)) (rekey_fn : String → Result String) where
  at_status :
      (s : Status) (h : Events) (ea : EmergencyAccess)
      → ea.status ≡ s
      → IsBacked h ea
      → Stage s ea.grantor_id ea.grantee_id ea.uuid h
  at_status s h ea e c = subst (λ t. Stage t ea.grantor_id ea.grantee_id ea.uuid h) e c

  Allowed-IsBacked :
      (db : Gorm EmergencyAccess) (r : Request) (past : Events) (old new : EmergencyAccess)
      → IsBacked past old
      → Allowed users strings list_items rekey_fn r old new
      → IsBacked ((db, r) ∷ past) new
  Allowed-IsBacked db (invites uuid g email) past old new c a = absurd a
  Allowed-IsBacked db (accepts g u) past old new c a = rw (a.3) tt
  Allowed-IsBacked db (confirms g u k) past old new c (eu, eg, es, en) =
      rw en (inl (k, rw (eu, eg) refl))
  Allowed-IsBacked db (requests now g u) past old new c (eu, eg, es, en) =
      rw en (g, eg, inl (now, rw eu refl, at_status confirmed past old es c))
  Allowed-IsBacked db (approves now g u) past old new c (eu, eg, es, en) =
      let (e, ee, asked) = at_status recovery_requested past old es c in
      rw en (e, ee, inl (now, rw (eu, eg) refl, asked))
  Allowed-IsBacked db (rejects g u) past old new c a = rw (a.3) tt
  Allowed-IsBacked db (revokes g u) past old new c a = absurd a
  Allowed-IsBacked db (opens g u) past old new c (eu, eg, es, en) =
      let (e, ee, agreed) = at_status recovery_approved past old es c in
      rw en (
        inr (
          before
            (λ r h.
              (now : ℕ) × (r ≡ requests now e old.uuid) × ConfirmedBy old.grantor_id old.uuid h)
            (λ r h. (k : String) × (r ≡ confirms old.grantor_id old.uuid k)) past (λ _ _ q. q.2)
            (before
              (λ r h.
                (now : ℕ) × (r ≡ approves now old.grantor_id old.uuid)
                × RequestedBy old.grantor_id e old.uuid h)
              (λ r h.
                (now : ℕ) × (r ≡ requests now e old.uuid) × ConfirmedBy old.grantor_id old.uuid h)
              past (λ _ _ q. q.2) agreed)))
  Allowed-IsBacked db (rekeys g) past old new c (eg, es, (k, k', ek, er, en)) =
      rw en (persists (db, rekeys g) old.status old.grantor_id old.grantee_id old.uuid past c)

  Issued-IsBacked :
      (db : Gorm EmergencyAccess) (r : Request) (past : Events) (new : EmergencyAccess)
      → Issued users strings list_items rekey_fn r new
      → IsBacked ((db, r) ∷ past) new
  Issued-IsBacked db (invites uuid g email) past new a =
      subst
        (λ t. Stage t new.grantor_id new.grantee_id new.uuid ((db, invites uuid g email) ∷ past))
        (sym (a.2)) tt
  Issued-IsBacked db (accepts g u) past new a = absurd a
  Issued-IsBacked db (confirms g u k) past new a = absurd a
  Issued-IsBacked db (requests now g u) past new a = absurd a
  Issued-IsBacked db (approves now g u) past new a = absurd a
  Issued-IsBacked db (rejects g u) past new a = absurd a
  Issued-IsBacked db (revokes g u) past new a = absurd a
  Issued-IsBacked db (opens g u) past new a = absurd a
  Issued-IsBacked db (rekeys g) past new a = absurd a

  run-IsBacked :
      (h : Events)
      → Reliable users strings list_items rekey_fn h
      → All (IsBacked h) (run users strings list_items rekey_fn h)
  run-IsBacked =
      rows_inv users strings list_items rekey_fn IsBacked
        (λ db r past x c. persists (db, r) x.status x.grantor_id x.grantee_id x.uuid past c)
        Allowed-IsBacked Issued-IsBacked

  -- If GetVaultForRecovery answers with a vault on the table that a history of requests leaves,
  -- where every database of the history behaves as gorm is relied on to, the table has a record
  -- with this identifier that names the caller as its grantee and holds the key in the answer. Its
  -- grantor approved the recovery in that history, after the caller requested it, which was after
  -- the grantor confirmed the record.
  pub vault_needs_approval :
      (h : Events) (db : Gorm EmergencyAccess) (g : ℕ) (u : String)
      (v : EmergencyVaultResponse Item) (rows' : List EmergencyAccess)
      → Reliable users strings list_items rekey_fn h
      → IsGorm key rekey db
      → get_vault_for_recovery db users strings list_items g u
          (run users strings list_items rekey_fn h)
        ≡ (ok v, rows')
      → (ea : EmergencyAccess) × Memᴰ ea (run users strings list_items rekey_fn h)
        × (ea.uuid ≡ u)
        × (ea.grantee_id ≡ some g)
        × (ea.key_encrypted ≡ some v.key_encrypted)
        × ApprovedBy ea.grantor_id g u h
  vault_needs_approval h db g u v rows' rel gorm e =
      let rows = run users strings list_items rekey_fn h in
      let (ea, m, eu, eg, es, ek, _) =
        on_success (Opened users strings list_items rekey_fn g u rows) _ v rows'
          (opened users strings list_items rekey_fn db gorm g u rows) e in
      let (g', eg', agreed) =
        at_status recovery_approved h ea es (All-mem (IsBacked h) ea rows (run-IsBacked h rel) m) in
      (
        ea,
        m,
        eu,
        eg,
        ek,
        subst (λ n. ApprovedBy ea.grantor_id n u h) (some_injective (sym eg' ∙ eg))
            (subst (λ t. ApprovedBy ea.grantor_id g' t h) eu agreed),
      )
    where
      some_injective : {a b : ℕ} → some a ≡ some b → a ≡ b
      some_injective h = cc

-- ===== src/Emergency/Accounting.antt =====
-- Every row of the table after a request is accounted for.
use passwall_server.Base.{
  ℕ, Option, none, some, String, true, List, [], ◌∷◌, map_error, translate, Gorm, IsGorm, str_eq,
  ◌==◌, holds, ◌&&◌, ◌||◌, Result, ok, err, ◌≡◌, refl, ◌⊎◌, inl, inr, Memᴰ, All, All-upsert,
  All-keep, All-append, All-self, All-weaken, arith, eq_iff, ap, or_fail_step, create_end_step,
  logged_commit_step, call_step, lift_step, lift_error_step, require_step, write_error_step,
  logged_step, commit_step, map_error_ok, ==→eq,
}
use passwall_server.Emergency.Record.{
  Status, invited, accepted, confirmed, recovery_requested, recovery_approved, EmergencyAccess,
  Table, is_invited, is_accepted, is_confirmed, is_recovery_requested, is_recovery_approved, key,
  rekey,
}
use passwall_server.Emergency.Service.{
  User, Strings, invite, accept, confirm, request_recovery, approve_recovery, reject_recovery,
  revoke, get_vault_for_recovery, rekey_for_user, rekey_grants, store_rekeyed, rekey_key,
}
use passwall_server.Emergency.Lifecycle.{
  Request, invites, accepts, confirms, requests, approves, rejects, revokes, opens, rekeys, serve,
  Allowed, Accounted,
}

invited_of : (s : Status) → is_invited s ≡ true → s ≡ invited
invited_of s h = ground arith

accepted_of : (s : Status) → is_accepted s ≡ true → s ≡ accepted
accepted_of s h = ground arith

confirmed_of : (s : Status) → is_confirmed s ≡ true → s ≡ confirmed
confirmed_of s h = ground arith

requested_of : (s : Status) → is_recovery_requested s ≡ true → s ≡ recovery_requested
requested_of s h = ground arith

pub approved_of : (s : Status) → is_recovery_approved s ≡ true → s ≡ recovery_approved
approved_of s h = ground arith

pub holds→some : (o : Option ℕ) (n : ℕ) → holds o n ≡ true → o ≡ some n
holds→some none n h = cc
holds→some (some m) n h = ap some (==→eq m n h)

grant_test :
    (g : ℕ) (x : EmergencyAccess)
    → ((x.grantor_id == g) && (is_confirmed x.status || is_recovery_approved x.status)) ≡ true
    → (x.grantor_id ≡ g) × ((x.status ≡ confirmed) ⊎ (x.status ≡ recovery_approved))
grant_test g x h = ground arith

module _ (db : Gorm EmergencyAccess) (gorm : IsGorm key rekey db) where
  pub found :
      (u : String) (rows : Table) (ea : EmergencyAccess)
      → map_error translate (db.first (λ x. str_eq x.uuid u) rows) ≡ ok ea
      → Memᴰ ea rows × (ea.uuid ≡ u)
  found u rows ea h =
      let (m, e) = gorm.first_found (λ x. str_eq x.uuid u) rows ea (map_error_ok translate _ h) in
      (m, (eq_iff ea.uuid u).0 e)

  saved-All :
      (P : EmergencyAccess → Type 0) (ea : EmergencyAccess) (rows rows' : Table)
      → P ea
      → All P rows
      → db.save ea rows ≡ ok rows'
      → All P rows'
  saved-All P ea rows rows' p ps h =
      rw (gorm.save_ok ea rows rows' h) (All-upsert P key ea rows p ps)

  module _ {Item : Type 0} (users : ℕ → Result User) (strings : Strings)
      (list_items : ℕ → Result (List Item)) (rekey_fn : String → Result String) where
    abbrev Kept : Request → Table → Table → Type 0
    Kept r rows = All (Accounted users strings list_items rekey_fn r rows)

    unchanged : (r : Request) (rows : Table) → Kept r rows rows
    unchanged r rows =
        All-weaken (λ x. Memᴰ x rows) (Accounted users strings list_items rekey_fn r rows) rows
          (λ x m. inl m) (All-self rows)

    changed :
        (r : Request) (rows : Table) (old new : EmergencyAccess)
        → Memᴰ old rows
        → Allowed users strings list_items rekey_fn r old new
        → (rows' : Table) → db.save new rows ≡ ok rows'
        → Kept r rows rows'
    changed r rows old new m a rows' h =
        saved-All (Accounted users strings list_items rekey_fn r rows) new rows rows'
          (inr (inl (old, m, a))) (unchanged r rows) h

    confirm-Kept :
        (g : ℕ) (u k : String) (rows : Table)
        → Kept (confirms g u k) rows (confirm db users strings g u k rows).1
    unfolding confirm
    confirm-Kept g u k rows =
        let r = confirms g u k in
        let same = unchanged r rows in
        require_step (Kept r rows) _ _ _ rows same λ _.
          lift_step (Kept r rows) _ _ rows same λ ea e.
            let (m, eu) = found u rows ea e in
            require_step (Kept r rows) _ _ _ rows same λ eg.
              require_step (Kept r rows) _ _ _ rows same λ es.
                write_error_step (Kept r rows) _ _ _ rows same λ rows' h.
                  changed r rows ea _ m (eu, ==→eq _ _ eg, accepted_of _ es, refl) rows' h

    invite-Kept :
        (uuid : String) (g : ℕ) (email : String) (rows : Table)
        → Kept (invites uuid g email) rows (invite db users strings uuid g email rows).1
    unfolding invite
    invite-Kept uuid g email rows =
        let r = invites uuid g email in
        let same = unchanged r rows in
        require_step (Kept r rows) _ _ _ rows same λ _.
          lift_error_step (Kept r rows) _ _ _ rows same λ grantor _.
            require_step (Kept r rows) _ _ _ rows same λ _.
              create_end_step (Kept r rows) _ _ rows same λ new rows' h.
                let (e, e', _) = gorm.create_ok _ rows new rows' h in
                rw e' (
                  All-append (Accounted users strings list_items rekey_fn r rows) rows (new ∷ [])
                    same (inr (inr (rw e (refl, refl, refl, refl, refl))), tt))

    accept-Kept :
        (g : ℕ) (u : String) (rows : Table)
        → Kept (accepts g u) rows (accept db users strings g u rows).1
    unfolding accept
    accept-Kept g u rows =
        let r = accepts g u in
        let same = unchanged r rows in
        lift_step (Kept r rows) _ _ rows same λ ea e.
          let (m, eu) = found u rows ea e in
          require_step (Kept r rows) _ _ _ rows same λ es.
            lift_error_step (Kept r rows) _ _ _ rows same λ grantee eg.
              require_step (Kept r rows) _ _ _ rows same λ ef.
                write_error_step (Kept r rows) _ _ _ rows same λ rows' h.
                  changed r rows ea _ m (eu, invited_of _ es, (grantee, eg, ef), refl) rows' h

    request_recovery-Kept :
        (now g : ℕ) (u : String) (rows : Table)
        → Kept (requests now g u) rows (request_recovery db users strings now g u rows).1
    unfolding request_recovery
    request_recovery-Kept now g u rows =
        let r = requests now g u in
        let same = unchanged r rows in
        lift_step (Kept r rows) _ _ rows same λ ea e.
          let (m, eu) = found u rows ea e in
          require_step (Kept r rows) _ _ _ rows same λ eg.
            require_step (Kept r rows) _ _ _ rows same λ es.
              write_error_step (Kept r rows) _ _ _ rows same λ rows' h.
                changed r rows ea _ m (eu, holds→some _ g eg, confirmed_of _ es, refl) rows' h

    approve_recovery-Kept :
        (now g : ℕ) (u : String) (rows : Table)
        → Kept (approves now g u) rows (approve_recovery db users strings now g u rows).1
    unfolding approve_recovery
    approve_recovery-Kept now g u rows =
        let r = approves now g u in
        let same = unchanged r rows in
        lift_step (Kept r rows) _ _ rows same λ ea e.
          let (m, eu) = found u rows ea e in
          require_step (Kept r rows) _ _ _ rows same λ eg.
            require_step (Kept r rows) _ _ _ rows same λ es.
              write_error_step (Kept r rows) _ _ _ rows same
                λ rows' h. changed r rows ea _ m (eu, ==→eq _ _ eg, requested_of _ es, refl) rows' h

    reject_recovery-Kept :
        (g : ℕ) (u : String) (rows : Table)
        → Kept (rejects g u) rows (reject_recovery db users strings g u rows).1
    unfolding reject_recovery
    reject_recovery-Kept g u rows =
        let r = rejects g u in
        let same = unchanged r rows in
        lift_step (Kept r rows) _ _ rows same λ ea e.
          let (m, eu) = found u rows ea e in
          require_step (Kept r rows) _ _ _ rows same λ eg.
            require_step (Kept r rows) _ _ _ rows same λ es.
              write_error_step (Kept r rows) _ _ _ rows same
                λ rows' h. changed r rows ea _ m (eu, ==→eq _ _ eg, requested_of _ es, refl) rows' h

    revoke-Kept :
        (g : ℕ) (u : String) (rows : Table)
        → Kept (revokes g u) rows (revoke db users strings g u rows).1
    unfolding revoke
    revoke-Kept g u rows =
        let r = revokes g u in
        let same = unchanged r rows in
        lift_step (Kept r rows) _ _ rows same λ (ea : EmergencyAccess) e.
          require_step (Kept r rows) _ _ _ rows same λ eg.
            commit_step (Kept r rows) _ rows same λ rows' h.
              rw (gorm.delete_ok ea.id rows rows' h)
                (All-keep (Accounted users strings list_items rekey_fn r rows) _ rows same)

    get_vault-Kept :
        (g : ℕ) (u : String) (rows : Table)
        → Kept (opens g u) rows (get_vault_for_recovery db users strings list_items g u rows).1
    unfolding get_vault_for_recovery
    get_vault-Kept g u rows =
        let r = opens g u in
        let same = unchanged r rows in
        lift_step (Kept r rows) _ _ rows same λ ea e.
          let (m, eu) = found u rows ea e in
          require_step (Kept r rows) _ _ _ rows same λ eg.
            require_step (Kept r rows) _ _ _ rows same λ es.
              or_fail_step (Kept r rows) _ _ _ rows same λ k ek.
                lift_error_step (Kept r rows) _ _ _ rows same λ grantor _.
                  lift_error_step (Kept r rows) _ _ _ rows same λ items _.
                    logged_step (Kept r rows) _ _ rows same λ rows' h.
                      changed r rows ea _ m (eu, holds→some _ g eg, approved_of _ es, refl) rows' h

    -- A grant that the loop may re-encrypt.
    abbrev Grant : ℕ → Table → EmergencyAccess → Type 0
    Grant g rows ea =
        Memᴰ ea rows
        × (ea.grantor_id ≡ g)
        × ((ea.status ≡ confirmed) ⊎ (ea.status ≡ recovery_approved))

    store_rekeyed-Kept :
        (g : ℕ) (rows : Table) (ea : EmergencyAccess) (old_key : String) (new_key : Result String)
        → Grant g rows ea
        → ea.key_encrypted ≡ some old_key
        → rekey_fn old_key ≡ new_key
        → (s : Table) → Kept (rekeys g) rows s
        → Kept (rekeys g) rows (store_rekeyed db users strings ea new_key s).1
    unfolding store_rekeyed
    store_rekeyed-Kept g rows ea old_key (err x) h e e' s same = same
    store_rekeyed-Kept g rows ea old_key (ok new_key) h e e' s same =
        logged_commit_step (Kept (rekeys g) rows) _ s same λ s' saved.
          saved-All (Accounted users strings list_items rekey_fn (rekeys g) rows) _ s s'
            (inr (inl (ea, h.0, (h.1, h.2, (old_key, new_key, e, e', refl))))) same saved

    rekey_key-Kept :
        (g : ℕ) (rows : Table) (ea : EmergencyAccess) (o : Option String)
        → Grant g rows ea
        → ea.key_encrypted ≡ o
        → (s : Table) → Kept (rekeys g) rows s
        → Kept (rekeys g) rows (rekey_key db users strings rekey_fn ea o s).1
    unfolding rekey_key
    rekey_key-Kept g rows ea none h e s same = same
    rekey_key-Kept g rows ea (some old_key) h e s same =
        store_rekeyed-Kept g rows ea old_key (rekey_fn old_key) h e refl s same

    rekey_grants-Kept :
        (g : ℕ) (rows grants : Table)
        → ((x : EmergencyAccess) → Memᴰ x grants → Grant g rows x)
        → (s : Table) → Kept (rekeys g) rows s
        → Kept (rekeys g) rows (rekey_grants db users strings rekey_fn grants s).1
    unfolding rekey_grants
    rekey_grants-Kept g rows [] h s same = same
    rekey_grants-Kept g rows (ea ∷ grants) h s same =
        let same' = rekey_key-Kept g rows ea ea.key_encrypted (h ea (Memᴰ.head refl)) refl s same in
        call_step (Kept (rekeys g) rows) _ _ same'
          λ _ _. rekey_grants-Kept g rows grants (λ x m. h x (Memᴰ.tail m)) _ same'

    rekey_for_user-Kept :
        (g : ℕ) (rows : Table)
        → Kept (rekeys g) rows (rekey_for_user db users strings g rekey_fn rows).1
    unfolding rekey_for_user
    rekey_for_user-Kept g rows =
        let same = unchanged (rekeys g) rows in
        lift_error_step (Kept (rekeys g) rows) _ _ _ rows same λ grants e.
          rekey_grants-Kept g rows grants
            (λ x m.
              let (m', t) = gorm.find_sound _ rows grants e x m in
              let (t', t'') = grant_test g x t in (m', t', t''))
            rows same

    -- Whatever a request is and whatever the database answers, each record in the table afterwards
    -- was there before, or comes from one that was by a change that this request may make, or is
    -- the record that the invitation issues.
    pub serve-Accounted :
        (r : Request) (rows : Table)
        → All
            (Accounted users strings list_items rekey_fn r rows)
            (serve users strings list_items rekey_fn db r rows)
    unfolding serve
    serve-Accounted (invites uuid g email) rows = invite-Kept uuid g email rows
    serve-Accounted (accepts g u) rows = accept-Kept g u rows
    serve-Accounted (confirms g u k) rows = confirm-Kept g u k rows
    serve-Accounted (requests now g u) rows = request_recovery-Kept now g u rows
    serve-Accounted (approves now g u) rows = approve_recovery-Kept now g u rows
    serve-Accounted (rejects g u) rows = reject_recovery-Kept g u rows
    serve-Accounted (revokes g u) rows = revoke-Kept g u rows
    serve-Accounted (opens g u) rows = get_vault-Kept g u rows
    serve-Accounted (rekeys g) rows = rekey_for_user-Kept g rows

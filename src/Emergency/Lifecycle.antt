-- ===== src/Emergency/Lifecycle.antt =====
-- What a request may change in the table of emergency accesses.
use passwall_server.Base.{ℕ, none, some, String, true, List, Gorm, Result, ok, ◌≡◌, ◌⊎◌, Memᴰ}
use passwall_server.Emergency.Record.{
  invited, accepted, confirmed, recovery_requested, recovery_approved, recovery_rejected,
  EmergencyAccess, Table,
}
use passwall_server.Emergency.Service.{
  User, Strings, invite, accept, confirm, request_recovery, approve_recovery, reject_recovery,
  revoke, get_vault_for_recovery, rekey_for_user,
}

-- The requests that change the table. A request carries the clock, and `invites` the new
-- identifier.
pub data Request : Type 0 where
  invites : String → ℕ → String → Request
  accepts : ℕ → String → Request
  confirms : ℕ → String → String → Request
  requests approves : ℕ → ℕ → String → Request
  rejects : ℕ → String → Request
  revokes : ℕ → String → Request
  opens : ℕ → String → Request
  rekeys : ℕ → Request

module _ {Item : Type 0} (users : ℕ → Result User) (strings : Strings)
    (list_items : ℕ → Result (List Item)) (rekey_fn : String → Result String) where
  -- The table after a request, whatever its answer is.
  unfoldable pub serve : Gorm EmergencyAccess → Request → Table → Table
  unfolding invite accept confirm request_recovery approve_recovery reject_recovery revoke
      get_vault_for_recovery rekey_for_user
  serve db (invites uuid g email) rows = (invite db users strings uuid g email rows).1
  serve db (accepts g u) rows = (accept db users strings g u rows).1
  serve db (confirms g u k) rows = (confirm db users strings g u k rows).1
  serve db (requests now g u) rows = (request_recovery db users strings now g u rows).1
  serve db (approves now g u) rows = (approve_recovery db users strings now g u rows).1
  serve db (rejects g u) rows = (reject_recovery db users strings g u rows).1
  serve db (revokes g u) rows = (revoke db users strings g u rows).1
  serve db (opens g u) rows = (get_vault_for_recovery db users strings list_items g u rows).1
  serve db (rekeys g) rows = (rekey_for_user db users strings g rekey_fn rows).1

  -- The change of one record that a request may make: who asks, in which status, and what is set.
  abbrev pub Allowed : Request → EmergencyAccess → EmergencyAccess → Type 0
  Allowed (invites uuid g email) old new = ⊥
  Allowed (accepts g u) old new =
      (old.uuid ≡ u)
      × (old.status ≡ invited)
      × ((grantee : User) × (users g ≡ ok grantee)
          × (strings.equal_fold grantee.email old.grantee_email ≡ true))
      × (new ≡ record old { grantee_id = some g; status = accepted })
  Allowed (confirms g u k) old new =
      (old.uuid ≡ u)
      × (old.grantor_id ≡ g)
      × (old.status ≡ accepted)
      × (new ≡ record old { key_encrypted = some k; status = confirmed })
  Allowed (requests now g u) old new =
      (old.uuid ≡ u)
      × (old.grantee_id ≡ some g)
      × (old.status ≡ confirmed)
      × (new ≡ record old { status = recovery_requested; recovery_init_at = some now })
  Allowed (approves now g u) old new =
      (old.uuid ≡ u)
      × (old.grantor_id ≡ g)
      × (old.status ≡ recovery_requested)
      × (new ≡ record old { status = recovery_approved; recovery_approve_at = some now })
  Allowed (rejects g u) old new =
      (old.uuid ≡ u)
      × (old.grantor_id ≡ g)
      × (old.status ≡ recovery_requested)
      × (new ≡ record old { status = recovery_rejected })
  Allowed (revokes g u) old new = ⊥
  Allowed (opens g u) old new =
      (old.uuid ≡ u)
      × (old.grantee_id ≡ some g)
      × (old.status ≡ recovery_approved)
      × (new
          ≡ record old { status = confirmed; recovery_init_at = none; recovery_approve_at = none })
  Allowed (rekeys g) old new =
      (old.grantor_id ≡ g)
      × ((old.status ≡ confirmed) ⊎ (old.status ≡ recovery_approved))
      × ((k k' : String) × (old.key_encrypted ≡ some k)
          × (rekey_fn k ≡ ok k')
          × (new ≡ record old { key_encrypted = some k' }))

  -- The record that an invitation adds.
  abbrev pub Issued : Request → EmergencyAccess → Type 0
  Issued (invites uuid g email) new =
      (new.uuid ≡ uuid)
      × (new.grantor_id ≡ g)
      × (new.status ≡ invited)
      × (new.grantee_id ≡ none)
      × (new.key_encrypted ≡ none)
  Issued _ new = ⊥

  abbrev pub Accounted : Request → Table → EmergencyAccess → Type 0
  Accounted r rows new =
      Memᴰ new rows ⊎ (((old : EmergencyAccess) × Memᴰ old rows × Allowed r old new) ⊎ Issued r new)

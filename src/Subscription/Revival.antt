-- ===== src/Subscription/Revival.antt =====
-- A payment event for a subscription that another one has replaced
-- (HandlePaymentSuccess of internal/service/subscription_service.go).
use passwall_server.Base.{
  ℕ, some, String, true, Gorm, IsGorm, Result, ok, err, after, lift, commit, map_outcome, ◌≡◌, ◌≢◌,
  refl, sym, ap, subst, ◌∙◌, Memᴰ, upsert-mem, upsert-mem_self,
}
use passwall_server.Subscription.Record.{
  SubscriptionState, expired, Subscription, Table, key, rekey, active_like, has_stripe_id,
}
use passwall_server.Subscription.Service.{Services, next_renewal, handle_payment_success, paid}
use passwall_server.Subscription.Uniqueness.{IsUnique}
use passwall_server.Subscription.Operations.{paid-same}

-- The row that the event saves, on the subscription that it finds.
abbrev revived : Services → ℕ → Subscription → Subscription
revived services now s = record (paid now s.state s) {
  renew_at = some (next_renewal services.calendar now (services.preloaded_plan s));
}

paid_expired :
    (now : ℕ) (st : SubscriptionState) (s : Subscription)
    → st ≡ expired
    → active_like (paid now st s).state ≡ true
unfolding paid
paid_expired now st s h = rw h refl

module _ (db : Gorm Subscription) (gorm : IsGorm key rekey db) (services : Services) where
  doubled :
      (now : ℕ) (s other : Subscription) (rows : Table) (m : Result Table)
      → db.save (revived services now s) rows ≡ m
      → s.state ≡ expired
      → Memᴰ other rows
      → other.id ≢ s.id
      → other.organization_id ≡ s.organization_id
      → active_like other.state ≡ true
      → (commit m rows).0 ≡ ok tt
      → ¬ IsUnique (commit m rows).1
  unfolding commit
  doubled now s other rows (err e) h old m ne eo on done u = cc
  doubled now s other rows (ok rows') h old m ne eo on done u =
      let same = paid-same db gorm services now s.state s in
      let new = revived services now s in
      let e = gorm.save_ok new rows rows' h in
      let mo =
        subst (λ (t : Table). Memᴰ other t) (sym e)
          (upsert-mem key new other rows m (λ k. ne (k ∙ same.0))) in
      let mn = subst (λ (t : Table). Memᴰ new t) (sym e) (upsert-mem_self key new rows) in
      ne (
        ap key (u.single other new mo mn (eo ∙ sym same.1) on (paid_expired now s.state s old))
        ∙ same.0)

  -- A payment event that succeeds for an expired subscription, while another subscription of its
  -- organization gives full access, leaves the organization with two that do.
  pub payment_revives :
      (now : ℕ) (stripe_id : String) (rows : Table) (s other : Subscription)
      → db.first (has_stripe_id stripe_id) rows ≡ ok s
      → s.state ≡ expired
      → Memᴰ other rows
      → other.id ≢ s.id
      → other.organization_id ≡ s.organization_id
      → active_like other.state ≡ true
      → (handle_payment_success db services now stripe_id rows).0 ≡ ok tt
      → ¬ IsUnique (handle_payment_success db services now stripe_id rows).1
  unfolding handle_payment_success after lift map_outcome
  payment_revives now stripe_id rows s other found old m ne eo on =
      rw found (doubled now s other rows _ refl old m ne eo on)

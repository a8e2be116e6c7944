-- ===== src/Subscription/StoreChanges.antt =====
-- What the webhooks of RevenueCat save (internal/service/revenuecat_service.go), and the rule of
-- one subscription with full access per organization.
use passwall_server.Base.{
  after, map_outcome, drop_error, ℕ, Option, none, some, String, Gorm, IsGorm, Result, ok, err,
  Error, ◌≡◌, refl, ap, sym, subst, ◌∙◌, inl, inr, Memᴰ, Bool-cases, str_eq, arith, OnSuccess,
  call_success, lift_error_success, require_success, write_error_success, create_end_success,
  commit_error_step, logged_commit_step, mem-append_last,
}
use passwall_server.Subscription.Record.{
  Subscription, Table, key, rekey, active_like, has_stripe_id,
}
use passwall_server.Subscription.Service.{
  Services, create_subscription, create_new, create_unless, update_subscription,
}
use passwall_server.Subscription.RevenueCat.{Resolvers, renewed_at, reactivated, set_expiration}
use passwall_server.Subscription.Uniqueness.{IsUnique, Vacant, Safe}
use passwall_server.Subscription.Checks.{saved, Effective}
use passwall_server.Subscription.Operations.{}
use passwall_server.Subscription.Calls.{}

-- A change of a subscription that keeps its key and its organization.
abbrev pub Kept : Subscription → Subscription → Type 0
Kept s s' = (s'.id ≡ s.id) × (s'.organization_id ≡ s.organization_id)

pub renewed_at-Kept : (t : Option ℕ) (s : Subscription) → Kept s (renewed_at t s)
renewed_at-Kept none s = (refl, refl)
renewed_at-Kept (some t) s = (refl, refl)

renewed_at-state : (t : Option ℕ) (s : Subscription) → (renewed_at t s).state ≡ s.state
renewed_at-state none s = refl
renewed_at-state (some t) s = refl

pub reactivated-Kept : (now : ℕ) (s : Subscription) → Kept s (reactivated now s)
reactivated-Kept now s = (ground arith, ground arith)

module _ (db : Gorm Subscription) (gorm : IsGorm key rekey db) (services : Services)
    (resolvers : Resolvers) where
  -- The effective subscription, changed and saved. Where it gives no full access, none of the
  -- organization does, so that any state is allowed.
  change-Safe : (o : ℕ) (rows : Table) (s s' : Subscription) → Effective o rows s → Safe rows s s'
  change-Safe o rows s s' (m, eo, v) on = elim (Bool-cases (active_like s.state)) [
    | inl t ↦ inl t
    | inr f ↦ inr (subst (λ n. Vacant n rows) (sym eo) (v f))
  ]

  pub change-IsUnique :
      (g : Error → Error) (o : ℕ) (rows : Table) (s s' : Subscription)
      → IsUnique rows
      → Effective o rows s
      → Kept s s'
      → IsUnique (map_outcome g (update_subscription db services s' rows)).1
  unfolding update_subscription
  change-IsUnique g o rows s s' u e (ei, eo) =
      commit_error_step IsUnique g _ rows u
        (saved db gorm services rows s s' u e.0 ei eo (change-Safe o rows s s' e))

  -- A subscription of the table, saved with its state.
  pub same_state-IsUnique :
      (rows : Table) (s s' : Subscription)
      → IsUnique rows
      → Memᴰ s rows
      → Kept s s'
      → s'.state ≡ s.state
      → IsUnique (drop_error (update_subscription db services s' rows)).1
  unfolding update_subscription
  same_state-IsUnique rows s s' u m (ei, eo) e =
      logged_commit_step IsUnique _ rows u
        (saved db gorm services rows s s' u m ei eo (λ on. inl (ap active_like (sym e) ∙ on)))

  create_new_success :
      (now : ℕ) (uuid : String) (o : ℕ) (code stripe_id : String) (seats : Option ℕ) (rows : Table)
      → OnSuccess Memᴰ (create_new db services now uuid o code stripe_id seats rows)
  unfolding create_new
  create_new_success now uuid o code stripe_id seats rows = call_success _ _ _ λ _ t1 _.
      lift_error_success _ _ _ _ t1 λ plan _. require_success _ _ _ _ t1 λ _.
        write_error_success _ _ _ _ t1 λ t2 _. create_end_success _ _ _ t2 λ s t3 h.
          let (row, added, other) = gorm.create_ok _ t2 s t3 h in
          subst (Memᴰ s) (sym added) (mem-append_last s t2)

  create_unless_success :
      (now : ℕ) (uuid : String) (o : ℕ) (code stripe_id : String) (seats : Option ℕ) (rows : Table)
      (m : Result Subscription)
      → db.first (has_stripe_id stripe_id) rows ≡ m
      → OnSuccess Memᴰ (create_unless db services now uuid o code stripe_id seats m rows)
  unfolding create_unless
  create_unless_success now uuid o code stripe_id seats rows (ok s) h =
      (gorm.first_found _ rows s h).0
  create_unless_success now uuid o code stripe_id seats rows (err e) h =
      create_new_success now uuid o code stripe_id seats rows

  -- What Create gives is in the table afterwards.
  pub create_success_lem :
      (now : ℕ) (uuid : String) (o : ℕ) (code stripe_id : String) (seats : Option ℕ) (rows : Table)
      → OnSuccess Memᴰ (create_subscription db services now uuid o code stripe_id seats rows)
  unfolding create_subscription
  create_success_lem now uuid o code stripe_id seats rows =
      elim (Bool-cases (str_eq stripe_id "")) [
        | inl e ↦ rw e (create_new_success now uuid o code stripe_id seats rows)
        | inr e ↦ rw e (create_unless_success now uuid o code stripe_id seats rows _ refl)
      ]

  set_expiration-IsUnique :
      (t : Option ℕ) (s : Subscription) (rows : Table)
      → IsUnique rows
      → Memᴰ s rows
      → IsUnique (set_expiration db services resolvers t s rows).1
  unfolding set_expiration
  set_expiration-IsUnique none s rows u m = u
  set_expiration-IsUnique (some t) s rows u m = same_state-IsUnique rows s _ u m (refl, refl) refl

  pub bought-IsUnique :
      (g : Error → Error) (t : Option ℕ) (o : Result Subscription × Table)
      → IsUnique o.1
      → OnSuccess Memᴰ o
      → IsUnique (after (map_outcome g o) (set_expiration db services resolvers t)).1
  unfolding after map_outcome
  bought-IsUnique g t (ok s, rows) u m = set_expiration-IsUnique t s rows u m
  bought-IsUnique g t (err e, rows) u m = u

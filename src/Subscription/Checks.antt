-- ===== src/Subscription/Checks.antt =====
-- What SubscriptionService (internal/service/subscription_service.go) reads and saves, and its
-- checks that change nothing.
use passwall_server.Base.{
  ℕ, Option, none, some, String, true, false, Gorm, IsGorm, ◌==◌, ◌≤◌, Result, ok, err, Error,
  after, lift, map_outcome, ◌≡◌, refl, subst, inl, inr, Memᴰ, arith, Bool-cases, ==→eq, All-mem,
  lift_error_step, require_step, same_step, record_not_found, require-same, or_fail,
}
use passwall_server.Subscription.Record.{
  SubscriptionState, Subscription, Table, key, rekey, active_like, eq_canceled, effective_answer,
  select_effective_subscription, PaymentProvider, stripe, revenue_cat, manual,
}
use passwall_server.Subscription.Effective.{
  rank, Selected, select_effective-Selected, rank_active, rank_inactive,
}
use passwall_server.Subscription.Service.{
  Services, StripeClient, check_plan_type, check_limit, route, stripe_call,
}
use passwall_server.Subscription.Uniqueness.{IsUnique, Vacant, Safe, save-IsUnique}

-- The answer of GetByOrganizationID: one of the organization's rows, and one with full access if
-- any of them has it.
abbrev pub Effective : ℕ → Table → Subscription → Type 0
Effective o rows s =
    Memᴰ s rows × (s.organization_id ≡ o) × (active_like s.state ≡ false → Vacant o rows)

pub chosen :
    (now : ℕ) (subs : Table) (o : Option Subscription) (s : Subscription)
    → Selected now subs o
    → (elim o [ none ↦ err record_not_found | some s ↦ ok s ]) ≡ ok s
    → Selected now subs (some s)
chosen now subs none s h e = cc
chosen now subs (some x) s h e = let q : x ≡ s = cc in subst (λ y. Selected now subs (some y)) q h

pub canceled_of : (s : SubscriptionState) → eq_canceled s ≡ true → active_like s ≡ false
canceled_of s h = ground arith

pub check_limit-same :
    (l : Option ℕ) (c : Result ℕ) (t : String) (db : Gorm Subscription) (services : Services)
    (s : Table)
    → (check_limit db services l c t s).1 ≡ s
unfolding check_limit after lift map_outcome
check_limit-same none c t db services s = refl
check_limit-same (some l) (ok n) t db services s = require-same _ _ s
check_limit-same (some l) (err e) t db services s = refl

or_fail-same : {A : Type 0} (o : Option A) (e : Error) (s : Table) → (or_fail o e s).1 ≡ s
unfolding or_fail
or_fail-same none e s = refl
or_fail-same (some a) e s = refl

module _ (db : Gorm Subscription) (gorm : IsGorm key rekey db) (services : Services) where
  open services use {calendar}

  pub effective :
      (now o : ℕ) (rows : Table) (s : Subscription)
      → effective_answer now (db.find (λ x. x.organization_id == o) rows) ≡ ok s
      → Effective o rows s
  effective now o rows s h = go (db.find (λ x. x.organization_id == o) rows) refl h
    where
      go :
          (m : Result Table)
          → db.find (λ x. x.organization_id == o) rows ≡ m
          → effective_answer now m ≡ ok s
          → Effective o rows s
      go (err x) e k = cc
      go (ok subs) e k =
          let (m, best) =
            chosen now subs (select_effective_subscription subs now) s
              (select_effective-Selected subs now) k in
          let (mr, t) = gorm.find_sound _ rows subs e s m in
          (
            mr,
            ==→eq _ _ t,
            λ off x mx eo. elim (Bool-cases (active_like x.state)) [
              | inr f ↦ f
              | inl on ↦
                  let mx' = gorm.find_complete _ rows subs e x mx (rw eo (ground arith)) in
                  let le : rank now s ≤ rank now x =
                    All-mem (λ y. rank now s ≤ rank now y) x subs best mx' in
                  absurd (omega (arith, le, rank_active now x on, rank_inactive now s off))
            ],
          )

  pub saved :
      (rows : Table) (old new : Subscription)
      → IsUnique rows
      → Memᴰ old rows
      → new.id ≡ old.id
      → new.organization_id ≡ old.organization_id
      → Safe rows old new
      → (rows' : Table) → db.save new rows ≡ ok rows'
      → IsUnique rows'
  saved rows old new u m ei eo safe rows' h =
      rw (gorm.save_ok new rows rows' h) (save-IsUnique rows old new u m ei eo safe)

  pub check_plan_type-same :
      (o : ℕ) (c : String) (s : Table) → (check_plan_type db services o c s).1 ≡ s
  unfolding check_plan_type
  check_plan_type-same o c s =
      lift_error_step (λ x. x ≡ s) _ _ _ s refl
        λ personal _. require_step (λ x. x ≡ s) _ _ _ s refl λ _. require-same _ _ s

  pub stripe_call-same :
      (f : StripeClient → String → Result (Unit {0})) (t : String) (o : Option String) (s : Table)
      → (stripe_call db services f t o s).1 ≡ s
  unfolding stripe_call map_outcome lift
  stripe_call-same f t none s = refl
  stripe_call-same f t (some id) s =
      same_step (λ x. x ≡ s) _ _ s (or_fail-same services.stripe_client _ s) refl λ client _. refl

  pub route-same :
      (f : StripeClient → String → Result (Unit {0})) (t : String) (o : Option String)
      (p : PaymentProvider) (s : Table)
      → (route db services f t o p s).1 ≡ s
  unfolding route
  route-same f t o stripe s = stripe_call-same f t o s
  route-same f t o revenue_cat s = refl
  route-same f t o manual s = refl

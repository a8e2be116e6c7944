-- ===== src/Subscription/Operations.antt =====
-- Each operation of SubscriptionService (internal/service/subscription_service.go) and the rule of
-- one subscription with full access per organization.
use passwall_server.Base.{
  ℕ, Option, String, [], ◌∷◌, Gorm, IsGorm, str_eq, Result, ok, err, ◌≡◌, refl, sym, ap, subst, inl,
  inr, Bool-cases, lift_error_step, require_step, write_error_step, commit_step, commit_error_step,
  call_step, create_end_step, same_step, logged_call_step,
}
use passwall_server.Subscription.Record.{
  SubscriptionState, draft, trialing, active, past_due, canceled, expired, Subscription, Table, key,
  rekey,
}
use passwall_server.Subscription.Service.{
  Services, create_subscription, update_subscription, update_seats_purchased, upgrade, downgrade,
  cancel, resume, renew, handle_payment_success, handle_payment_failed, expire_subscription,
  check_expired_subscriptions, create_new, create_unless, new_subscription, expire_each, paid,
}
use passwall_server.Subscription.Uniqueness.{
  IsUnique, Vacant, ended-IsUnique, ended-Vacant, append-IsUnique,
}
use passwall_server.Subscription.Checks.{
  effective, saved, check_plan_type-same, route-same, canceled_of, check_limit-same,
}
use passwall_server.Subscription.Calls.{Current, Known}

module _ (db : Gorm Subscription) (gorm : IsGorm key rekey db) (services : Services) where
  open services use {calendar}

  create_new-IsUnique :
      (now : ℕ) (uuid : String) (o : ℕ) (code stripe_id : String) (seats : Option ℕ) (rows : Table)
      → IsUnique rows
      → IsUnique (create_new db services now uuid o code stripe_id seats rows).1
  unfolding create_new new_subscription
  create_new-IsUnique now uuid o code stripe_id seats rows u =
      same_step IsUnique _ _ rows (check_plan_type-same db gorm services o code rows) u λ _ _.
        lift_error_step IsUnique _ _ _ rows u λ plan _. require_step IsUnique _ _ _ rows u λ _.
          write_error_step IsUnique _ _ _ rows u λ rows' h.
            let eq = gorm.update_ok _ _ rows rows' h in
            let u' : IsUnique rows' = rw eq (ended-IsUnique o now rows u) in
            let v : Vacant o rows' = subst (Vacant o) (sym eq) (ended-Vacant o now rows) in
            create_end_step IsUnique _ _ rows' u' λ s rows'' h'.
              let (es, er, fresh) = gorm.create_ok _ rows' s rows'' h' in
              rw er (
                append-IsUnique rows' s u'
                  (subst (λ n. Vacant n rows')
                    (sym (ap (λ (x : Subscription). x.organization_id) es)) v)
                  fresh)

  create_unless-IsUnique :
      (now : ℕ) (uuid : String) (o : ℕ) (code stripe_id : String) (seats : Option ℕ) (rows : Table)
      (m : Result Subscription)
      → IsUnique rows
      → IsUnique (create_unless db services now uuid o code stripe_id seats m rows).1
  unfolding create_unless
  create_unless-IsUnique now uuid o code stripe_id seats rows (ok s) u = u
  create_unless-IsUnique now uuid o code stripe_id seats rows (err x) u =
      create_new-IsUnique now uuid o code stripe_id seats rows u

  pub create-IsUnique :
      (now : ℕ) (uuid : String) (o : ℕ) (code stripe_id : String) (seats : Option ℕ) (rows : Table)
      → IsUnique rows
      → IsUnique (create_subscription db services now uuid o code stripe_id seats rows).1
  unfolding create_subscription
  create-IsUnique now uuid o code stripe_id seats rows u = elim (Bool-cases (str_eq stripe_id "")) [
    | inl e ↦ rw e (create_new-IsUnique now uuid o code stripe_id seats rows u)
    | inr e ↦ rw e (create_unless-IsUnique now uuid o code stripe_id seats rows _ u)
  ]

  pub update_seats-IsUnique :
      (id : String) (seats : Option ℕ) (rows : Table)
      → IsUnique rows
      → IsUnique (update_seats_purchased db services id seats rows).1
  unfolding update_seats_purchased
  update_seats-IsUnique id seats rows u = require_step IsUnique _ _ _ rows u λ _.
      lift_error_step IsUnique _ _ _ rows u λ s e.
        commit_error_step IsUnique _ _ rows u (
          saved db gorm services rows s _ u (gorm.first_found _ rows s e).0 refl refl
            (λ on. inl on))

  pub upgrade-IsUnique :
      (now o : ℕ) (code : String) (rows : Table)
      → IsUnique rows
      → IsUnique (upgrade db services now o code rows).1
  unfolding upgrade
  upgrade-IsUnique now o code rows u =
      same_step IsUnique _ _ rows (check_plan_type-same db gorm services o code rows) u λ _ _.
        lift_error_step IsUnique _ _ _ rows u λ s e. lift_error_step IsUnique _ _ _ rows u λ _ _.
          lift_error_step IsUnique _ _ _ rows u λ _ _. require_step IsUnique _ _ _ rows u λ _.
            commit_step IsUnique _ rows u (
              saved db gorm services rows s _ u (effective db gorm services now o rows s e).0 refl
                refl (λ on. inl on))

  pub downgrade-IsUnique :
      (now o : ℕ) (code : String) (rows : Table)
      → IsUnique rows
      → IsUnique (downgrade db services now o code rows).1
  unfolding downgrade
  downgrade-IsUnique now o code rows u =
      same_step IsUnique _ _ rows (check_plan_type-same db gorm services o code rows) u λ _ _.
        lift_error_step IsUnique _ _ _ rows u λ s e.
          lift_error_step IsUnique _ _ _ rows u λ new_plan _.
            same_step IsUnique _ _ rows (check_limit-same new_plan.max_users _ _ db services rows) u
              λ _ _.
                same_step IsUnique _ _ rows
                  (check_limit-same new_plan.max_collections _ _ db services rows) u
                  λ _ _. commit_step IsUnique _ rows u (
                    saved db gorm services rows s _ u (effective db gorm services now o rows s e).0
                      refl refl (λ on. inl on))

  pub cancel-IsUnique :
      (now o : ℕ) (rows : Table) → IsUnique rows → IsUnique (cancel db services now o rows).1
  unfolding cancel
  cancel-IsUnique now o rows u = lift_error_step IsUnique _ _ _ rows u λ s e.
      require_step IsUnique _ _ _ rows u λ _.
        same_step IsUnique _ _ rows
          (route-same db gorm services _ _ s.stripe_subscription_id _ rows) u
          λ _ _. commit_error_step IsUnique _ _ rows u (
            saved db gorm services rows s _ u (effective db gorm services now o rows s e).0 refl
              refl (λ on. cc))

  -- A canceled subscription is the answer only where none of the organization gives full access.
  pub resume-IsUnique :
      (now o : ℕ) (rows : Table) → IsUnique rows → IsUnique (resume db services now o rows).1
  unfolding resume
  resume-IsUnique now o rows u = lift_error_step IsUnique _ _ _ rows u λ s e.
      require_step IsUnique _ _ _ rows u λ c.
        same_step IsUnique _ _ rows
          (route-same db gorm services _ _ s.stripe_subscription_id _ rows) u
          λ _ _.
            let (m, eo, v) = effective db gorm services now o rows s e in
            commit_error_step IsUnique _ _ rows u (
              saved db gorm services rows s _ u m refl refl
                (λ on. inr (subst (λ n. Vacant n rows) (sym eo) (v (canceled_of s.state c)))))

  pub renew-IsUnique :
      (now id : ℕ) (rows : Table) → IsUnique rows → IsUnique (renew db services now id rows).1
  unfolding renew
  renew-IsUnique now id rows u = lift_error_step IsUnique _ _ _ rows u λ s e.
      commit_step IsUnique _ rows u
        (saved db gorm services rows s _ u (gorm.first_found _ rows s e).0 refl refl (λ on. inl on))

  pub expire-IsUnique :
      (now id : ℕ) (rows : Table)
      → IsUnique rows
      → IsUnique (expire_subscription db services now id rows).1
  unfolding expire_subscription
  expire-IsUnique now id rows u = lift_error_step IsUnique _ _ _ rows u λ s e.
      commit_step IsUnique _ rows u
        (saved db gorm services rows s _ u (gorm.first_found _ rows s e).0 refl refl (λ on. cc))

  expire_each-IsUnique :
      (now : ℕ) (subs rows : Table)
      → IsUnique rows
      → IsUnique (expire_each db services now subs rows).1
  unfolding expire_each
  expire_each-IsUnique now [] rows u = u
  expire_each-IsUnique now (s ∷ subs) rows u =
      logged_call_step IsUnique _ _
        (expire_each-IsUnique now subs _ (expire-IsUnique now s.id rows u))

  pub check_expired-IsUnique :
      (now : ℕ) (rows : Table)
      → IsUnique rows
      → IsUnique (check_expired_subscriptions db services now rows).1
  unfolding check_expired_subscriptions
  check_expired-IsUnique now rows u = lift_error_step IsUnique _ _ _ rows u λ late _.
      let u1 = expire_each-IsUnique now late rows u in
      call_step IsUnique _ _ u1 λ _ _. lift_error_step IsUnique _ _ _ _ u1 λ ended _.
        let u2 = expire_each-IsUnique now ended _ u1 in
        call_step IsUnique _ _ u2 λ _ _.
          lift_error_step IsUnique _ _ _ _ u2 λ manuals _. expire_each-IsUnique now manuals _ u2

  pub paid-same :
      (now : ℕ) (st : SubscriptionState) (s : Subscription)
      → ((paid now st s).id ≡ s.id) × ((paid now st s).organization_id ≡ s.organization_id)
  unfolding paid
  paid-same now draft s = (refl, refl)
  paid-same now trialing s = (refl, refl)
  paid-same now past_due s = (refl, refl)
  paid-same now expired s = (refl, refl)
  paid-same now active s = (refl, refl)
  paid-same now canceled s = (refl, refl)

  pub pays-IsUnique :
      (now : ℕ) (id : String) (rows : Table)
      → IsUnique rows
      → Current db id rows
      → IsUnique (handle_payment_success db services now id rows).1
  unfolding handle_payment_success
  pays-IsUnique now id rows u c = lift_error_step IsUnique _ _ _ rows u λ s e.
      let (ei, eo) = paid-same now s.state s in
      commit_step IsUnique _ rows u
        (saved db gorm services rows s _ u (gorm.first_found _ rows s e).0 ei eo (λ on. c s e))

  pub fails-IsUnique :
      (now : ℕ) (id : String) (rows : Table)
      → IsUnique rows
      → Current db id rows
      → IsUnique (handle_payment_failed db services now id rows).1
  unfolding handle_payment_failed
  fails-IsUnique now id rows u c = lift_error_step IsUnique _ _ _ rows u λ s e.
      commit_step IsUnique _ rows u
        (saved db gorm services rows s _ u (gorm.first_found _ rows s e).0 refl refl (λ on. c s e))

  pub update-IsUnique :
      (s : Subscription) (rows : Table)
      → IsUnique rows
      → Known s rows
      → IsUnique (update_subscription db services s rows).1
  unfolding update_subscription
  update-IsUnique s rows u (old, m, ei, eo, safe) = commit_step IsUnique _ rows u (
      saved db gorm services rows old s u m ei eo
        λ on. elim safe [ inl off ↦ cc | inr rest ↦ rest ])

-- ===== src/Tests/Subscription.antt =====
-- An organization that replaced its subscription, on a table in memory.
use passwall_server.Base.{
  ℕ, none, some, String, true, false, [], ◌∷◌, Gorm, IsGorm, memory, memory-IsGorm, first_row, keep,
  upsert, ok, after, lift, commit, map_outcome, require, commit_value, drop_error, next_key, ◌≡◌,
  refl, Memᴰ, ◌+◌, ◌*◌, mem-cons, inl, inr, sym, ◌∙◌, ◌⊎◌, arith,
}
use passwall_server.Subscription.Record.{
  SubscriptionState, active, expired, canceled, Subscription, Table, key, rekey, active_like,
  has_stripe_id, select_effective_subscription,
}
use passwall_server.Subscription.Service.{
  Plan, yearly, Services, handle_payment_success, paid, create_subscription, create_new,
  create_unless, check_plan_type, new_subscription, update_subscription,
}
use passwall_server.Subscription.Effective.{Selected, select_effective-Selected}
use passwall_server.Subscription.Uniqueness.{IsUnique}
use passwall_server.Subscription.RevenueCat.{
  billing_issue, initial_purchase, Event, Resolvers, handle_webhook, handle_event,
  handle_initial_purchase, set_expiration,
}
use passwall_server.Plan.Code.{is_multi_user_plan, is_personal_vault_plan}
use passwall_server.Subscription.PlanChange.{
  PlanChange, Payments, change_plan, role_of, find_plan_config, sync_plan,
}
use passwall_server.Membership.Record.{OrganizationUser, owner, confirmed}
use passwall_server.Subscription.Calls.{webhook, serve}
use passwall_server.Subscription.Upkeep.{serve-IsUnique}
use passwall_server.Subscription.Revival.{payment_revives}

abbrev db : Gorm Subscription
db = memory key rekey

db-IsGorm : IsGorm key rekey db
db-IsGorm = memory-IsGorm key rekey (λ k r. refl)

abbrev team_plan : Plan
team_plan = record {
  id = 3;
  code = "team-yearly";
  billing_cycle = yearly;
  price_cents = 4800;
  trial_days = 0;
  max_users = some 10;
  max_collections = none;
  is_active = true;
}

abbrev services : Services
services = record {
  is_personal = λ o. ok false;
  plan_by_code = λ c. ok team_plan;
  plan_by_id = λ i. ok team_plan;
  preloaded_plan = λ s. some team_plan;
  member_count = λ o. ok 4;
  collection_count = λ o. ok 2;
  stripe_client = none;
  calendar = record {
    add_days = λ t n. t + n;
    add_months = λ t n. t + n * 30;
    add_years = λ t n. t + n * 365;
  };
}

abbrev subscription : ℕ → SubscriptionState → String → Subscription
subscription id state stripe_id = record {
  id = id;
  uuid = "s";
  organization_id = 1;
  plan_id = 3;
  state = state;
  started_at = some 0;
  renew_at = some 40;
  cancel_at = none;
  ended_at = none;
  grace_period_ends_at = none;
  trial_ends_at = none;
  stripe_subscription_id = some stripe_id;
  seats_purchased = none;
}

abbrev old : Subscription
old = subscription 1 expired "sub_old"

abbrev current : Subscription
current = subscription 2 active "sub_new"

abbrev table : Table
table = old ∷ current ∷ []

table-IsUnique : IsUnique table
table-IsUnique = record {
  keys = (((λ e. absurd (omega (arith, e))), tt), (tt, tt));
  single = λ x y mx my eo ax ay. go x y (mem-cons mx) (mem-cons my) ax ay;
}
  where
    go :
        (x y : Subscription)
        → (x ≡ old) ⊎ Memᴰ x (current ∷ [])
        → (y ≡ old) ⊎ Memᴰ y (current ∷ [])
        → active_like x.state ≡ true
        → active_like y.state ≡ true
        → x ≡ y
    go x y (inl e) my ax ay = cc (rw e at ax)
    go x y (inr m) (inl e) ax ay = cc (rw e at ay)
    go x y (inr (Memᴰ.head e)) (inr (Memᴰ.head e')) ax ay = e ∙ sym e'
    go x y (inr (Memᴰ.head e)) (inr (Memᴰ.tail m)) ax ay = elim m [ ]
    go x y (inr (Memᴰ.tail m)) (inr m') ax ay = elim m [ ]

select_effective-Selected_example :
    Selected 20
      (subscription 1 canceled "a" ∷ current ∷ [])
      (select_effective_subscription (subscription 1 canceled "a" ∷ current ∷ []) 20)
select_effective-Selected_example =
    select_effective-Selected (subscription 1 canceled "a" ∷ current ∷ []) 20

abbrev resolvers : Resolvers
resolvers = record { resolve_user_and_org = λ u. ok 1; get_plan_code = λ p. ok "team-yearly" }

abbrev boss : OrganizationUser
boss = record {
  id = 1;
  uuid = "m";
  organization_id = 1;
  user_id = 7;
  role = owner;
  encrypted_org_key = "k";
  access_all = true;
  permissions = "";
  status = confirmed;
  invited_at = none;
  accepted_at = none;
  external_id = none;
}

abbrev payments : Payments
payments = record {
  list_by_organization = λ o. ok (boss ∷ []);
  plans = record { code = "team"; max_users = some 10; stripe_price_id = "price" } ∷ [];
  joined = λ plan cycle. plan;
  update_subscription_plan = λ id price seats. ok tt;
}

-- The event of a payment issue, for the subscription that gives full access.
abbrev event : Event
event = record {
  type = billing_issue;
  app_user_id = "u";
  subscription_id = "rc_app_store_1";
  product_id = "pro";
  new_product_id = none;
  expiration_time = none;
  grace_period_time = some 50;
  auto_resume_time = none;
}

serve-IsUnique_example :
    IsUnique (serve db services resolvers payments 20 (webhook "n" event) table)
serve-IsUnique_example =
    serve-IsUnique db db-IsGorm services resolvers payments 20 (webhook "n" event) table
      table-IsUnique tt

-- A purchase in the store ends the subscription that the organization had.
abbrev bought : Table
bought =
    old
    ∷ record current { state = expired; ended_at = some 20 }
    ∷ record (subscription 3 active "rc_app_store_1") {
      uuid = "n";
      started_at = some 20;
      renew_at = some 90;
    }
    ∷ []

abbrev purchase : Event
purchase = record event { type = initial_purchase; expiration_time = some 90 }

buys : serve db services resolvers payments 20 (webhook "n" purchase) table ≡ bought
unfolding serve handle_webhook handle_event handle_initial_purchase create_subscription create_new
    create_unless check_plan_type new_subscription set_expiration update_subscription after lift
    map_outcome require commit commit_value drop_error first_row upsert next_key is_multi_user_plan
    is_personal_vault_plan
buys = refl

abbrev change : PlanChange
change = record {
  organization_id = 1;
  user_id = 7;
  plan = "team";
  billing_cycle = "yearly";
  seats = 4;
}

changes :
    change_plan db services payments 20 change table
    ≡ (ok tt, old ∷ record current { plan_id = 3; seats_purchased = some 4 } ∷ [])
unfolding change_plan role_of find_plan_config sync_plan update_subscription after lift map_outcome
    require commit drop_error upsert keep is_multi_user_plan is_personal_vault_plan
    select_effective_subscription
changes = refl

old_found : db.first (has_stripe_id "sub_old") table ≡ ok old
unfolding first_row
old_found = refl

event_done : (handle_payment_success db services 20 "sub_old" table).0 ≡ ok tt
unfolding handle_payment_success after lift map_outcome commit paid first_row upsert
event_done = refl

payment_revives_example : ¬ IsUnique (handle_payment_success db services 20 "sub_old" table).1
payment_revives_example =
    payment_revives db db-IsGorm services 20 "sub_old" table old current old_found refl
      (Memᴰ.tail (Memᴰ.head refl)) (λ e. absurd (omega (arith, e))) refl refl event_done

-- ===== src/Subscription/Effective.antt =====
-- Which of an organization's subscriptions counts.
use passwall_server.Base.{
  ℕ, ◌≤◌, Option, none, some, true, false, List, [], ◌∷◌, ◌&&◌, if◌then◌else◌, ◌≡◌, refl, sym, inl,
  inr, Memᴰ, arith, Bool-cases, All, All-weaken, All-self, All-mem,
}
use passwall_server.Subscription.Record.{
  Subscription, eq_canceled, active_like, later, first_active, first_in_window, or_head, or_else,
  select_effective_subscription,
}

-- The priority of a subscription, 0 the highest: one with full access, one canceled whose period
-- still runs, any other.
pub rank : ℕ → Subscription → ℕ
rank now s =
    if active_like s.state then 0 else if eq_canceled s.state && later s.renew_at now then 1 else 2

abbrev pub Selected : ℕ → List Subscription → Option Subscription → Type 0
Selected now subs none = subs ≡ []
Selected now subs (some s) = Memᴰ s subs × All (λ x. rank now s ≤ rank now x) subs

first_active-mem :
    (subs : List Subscription) (s : Subscription)
    → first_active subs ≡ some s
    → Memᴰ s subs × (active_like s.state ≡ true)
unfolding first_active
first_active-mem [] s h = cc
first_active-mem (x ∷ subs) s h = elim (Bool-cases (active_like x.state)) [
  | inl e ↦ let q : x ≡ s = ground arith in (Memᴰ.head (sym q), rw (← q) e)
  | inr e ↦ let (m, t) = first_active-mem subs s (ground arith) in (Memᴰ.tail m, t)
]

first_active-none :
    (subs : List Subscription)
    → first_active subs ≡ none
    → All (λ x. active_like x.state ≡ false) subs
unfolding first_active
first_active-none [] h = tt
first_active-none (x ∷ subs) h = elim (Bool-cases (active_like x.state)) [
  | inl e ↦ absurd (ground arith)
  | inr e ↦ (e, first_active-none subs (ground arith))
]

first_in_window-mem :
    (now : ℕ) (subs : List Subscription) (s : Subscription)
    → first_in_window now subs ≡ some s
    → Memᴰ s subs × ((eq_canceled s.state && later s.renew_at now) ≡ true)
unfolding first_in_window
first_in_window-mem now [] s h = cc
first_in_window-mem now (x ∷ subs) s h =
    elim (Bool-cases (eq_canceled x.state && later x.renew_at now)) [
      | inl e ↦ let q : x ≡ s = ground arith in (Memᴰ.head (sym q), rw (← q) e)
      | inr e ↦ let (m, t) = first_in_window-mem now subs s (ground arith) in (Memᴰ.tail m, t)
    ]

first_in_window-none :
    (now : ℕ) (subs : List Subscription)
    → first_in_window now subs ≡ none
    → All (λ x. (eq_canceled x.state && later x.renew_at now) ≡ false) subs
unfolding first_in_window
first_in_window-none now [] h = tt
first_in_window-none now (x ∷ subs) h =
    elim (Bool-cases (eq_canceled x.state && later x.renew_at now)) [
      | inl e ↦ absurd (ground arith)
      | inr e ↦ (e, first_in_window-none now subs (ground arith))
    ]

pub rank_active : (now : ℕ) (s : Subscription) → active_like s.state ≡ true → rank now s ≡ 0
unfolding rank
rank_active now s h = rw h

rank_window :
    (now : ℕ) (s : Subscription)
    → active_like s.state ≡ false
    → (eq_canceled s.state && later s.renew_at now) ≡ true
    → rank now s ≡ 1
unfolding rank
rank_window now s h k = rw (h, k)

rank_other :
    (now : ℕ) (s : Subscription)
    → active_like s.state ≡ false
    → (eq_canceled s.state && later s.renew_at now) ≡ false
    → rank now s ≡ 2
unfolding rank
rank_other now s h k = rw (h, k)

pub rank_inactive : (now : ℕ) (s : Subscription) → active_like s.state ≡ false → 1 ≤ rank now s
unfolding rank
rank_inactive now s h = elim (Bool-cases (eq_canceled s.state && later s.renew_at now)) [
  | inl k ↦ rw (h, k) (omega arith)
  | inr k ↦ rw (h, k) (omega arith)
]

others :
    (now : ℕ) (subs : List Subscription)
    → All (λ x. active_like x.state ≡ false) subs
    → All (λ x. (eq_canceled x.state && later x.renew_at now) ≡ false) subs
    → All (λ x. rank now x ≡ 2) subs
others now [] h k = tt
others now (x ∷ subs) h k = (rank_other now x h.0 k.0, others now subs h.1 k.1)

-- Each of the three stages selects a subscription of the best priority.
selected :
    (now : ℕ) (subs : List Subscription) (a w : Option Subscription)
    → first_active subs ≡ a
    → first_in_window now subs ≡ w
    → Selected now subs (or_head (or_else a w) subs)
selected now subs (some s) w ea ew =
    let (m, t) = first_active-mem subs s ea in
    let z : rank now s ≡ 0 = rank_active now s t in
    (
      m,
      All-weaken (λ x. Memᴰ x subs) (λ x. rank now s ≤ rank now x) subs (λ x _. omega arith)
          (All-self subs),
    )
selected now subs none (some s) ea ew =
    let (m, t) = first_in_window-mem now subs s ew in
    let idle = first_active-none subs ea in
    let z : rank now s ≡ 1 =
      rank_window now s (All-mem (λ x. active_like x.state ≡ false) s subs idle m) t in
    (
      m,
      All-weaken (λ x. active_like x.state ≡ false) (λ x. rank now s ≤ rank now x) subs
          (λ x h. omega (arith, rank_inactive now x h)) idle,
    )
selected now [] none none ea ew = refl
selected now (s ∷ subs) none none ea ew =
    let rs =
      others now (s ∷ subs) (first_active-none (s ∷ subs) ea)
        (first_in_window-none now (s ∷ subs) ew) in
    let z : rank now s ≡ 2 = rs.0 in
    (
      Memᴰ.head refl,
      All-weaken (λ x. rank now x ≡ 2) (λ x. rank now s ≤ rank now x) (s ∷ subs)
          (λ x h. omega arith) rs,
    )

-- The selection is empty only for no subscriptions at all; otherwise it is one of them, and none of
-- them has a better priority.
pub select_effective-Selected :
    (subs : List Subscription) (now : ℕ)
    → Selected now subs (select_effective_subscription subs now)
unfolding select_effective_subscription
select_effective-Selected subs now =
    selected now subs (first_active subs) (first_in_window now subs) refl refl

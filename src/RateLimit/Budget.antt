-- ===== src/RateLimit/Budget.antt =====
-- How many requests of an address the limiter lets through.
use native.Mathlib.Nat.{div-mul-le_self, le-div_iff_mul-le}
use passwall_server.Base.{
  ℕ, zero, suc, ◌+◌, ◌-◌, ◌*◌, ◌/◌, ◌≤◌, ◌<◌, Option, none, some, String, Bool, true, false, List,
  [], ◌∷◌, str_eq, ltb, if◌then◌else◌, ◌≡◌, refl, sym, ap, ◌∙◌, inl, inr, arith, Bool-cases, eq_iff,
  ◌&&◌,
}
use passwall_server.RateLimit.Visitors.{
  OneEach, kept, find_visitor-put_visitor, find_visitor-put_other, find_visitor-cleanup_visitors,
  OneEach-cleanup_visitors, OneEach-put_visitor,
}
use passwall_server.RateLimit.Limiter.{
  RateLimiter, Visitor, Visitors, find_visitor, put_visitor, refill, take_token, visit, allow,
  max_age, cleanup_visitors,
}

pub data Event : Type 0 where
  request : String → Event
  sweep : Event

-- The requests of the address that the limiter lets through, among events at these times, the
-- earliest first.
abbrev pub counted : Bool → String → String → ℕ
counted allowed j ip = if allowed && str_eq j ip then 1 else 0

unfoldable pub passed : RateLimiter → String → List (ℕ × Event) → Visitors → ℕ
passed l ip [] vs = 0
passed l ip ((t, sweep) ∷ es) vs = passed l ip es (cleanup_visitors t vs)
passed l ip ((t, request j) ∷ es) vs =
    counted (allow l t j vs).1 j ip + passed l ip es (allow l t j vs).0

-- The times rise from `start` and end by `end`.
abbrev pub Within : ℕ → ℕ → List (ℕ × Event) → Type 0
Within start end [] = start ≤ end
Within start end ((t, e) ∷ es) = (start ≤ t) × Within t end es

-- What an address may still use until `end`, in units of time.
abbrev budget : RateLimiter → ℕ → ℕ → Option Visitor → ℕ
budget l end now none = l.burst * l.rate + (end - now)
budget l end now (some v) = v.tokens * l.rate + (end - v.last_seen)

-- A known visitor was seen before now.
abbrev pub Seen : ℕ → Option Visitor → Type 0
Seen now none = Unit {0}
Seen now (some v) = v.last_seen ≤ now

abbrev used : Bool → ℕ
used true = 1
used false = 0

earned : (t a r n s e : ℕ) → a * r ≤ n - s → s ≤ n → n ≤ e → (t + a) * r + (e - n) ≤ t * r + (e - s)
earned t a r n s e h p q = grind arith

capped : (b t r : ℕ) → b ≤ t → b * r ≤ t * r
capped b t r h = grind arith

spent : (t r x : ℕ) → 0 < t → 1 * r + ((t - 1) * r + x) ≡ t * r + x
spent zero r x h = elim h [ ]
spent (suc t) r x h = grind arith

-- The tokens that a refill adds were earned by the time that passed.
refill-budget :
    (l : RateLimiter) (end now : ℕ) (v : Visitor)
    → v.last_seen ≤ now
    → now ≤ end
    → (budget l end now (some (refill l now v)) ≤ budget l end now (some v))
      × ((refill l now v).last_seen ≤ now)
unfolding refill
refill-budget l end now v seen le = elim (Bool-cases (ltb 0 ((now - v.last_seen) / l.rate))) [
  | inr f ↦ rw f (omega arith, seen)
  | inl t ↦
      let gain =
        earned v.tokens ((now - v.last_seen) / l.rate) l.rate now v.last_seen end
          (div-mul-le_self (now - v.last_seen) l.rate) seen le in
      elim (Bool-cases (ltb l.burst (v.tokens + (now - v.last_seen) / l.rate))) [
        | inl over ↦
            rw (t, over)
              (
                omega (
                  arith,
                  gain,
                  capped l.burst (v.tokens + (now - v.last_seen) / l.rate) l.rate (ground arith),
                ),
                omega arith,
              )
        | inr under ↦ rw (t, under) (gain, omega arith)
      ]
]

take_token-budget :
    (l : RateLimiter) (end now : ℕ) (v : Visitor)
    → (used (take_token v).1 * l.rate + budget l end now (some (take_token v).0)
        ≡ budget l end now (some v))
      × ((take_token v).0.last_seen ≡ v.last_seen)
unfolding take_token
take_token-budget l end now v = elim (Bool-cases (ltb 0 v.tokens)) [
  | inl t ↦ rw t (spent v.tokens l.rate (end - v.last_seen) (ground arith), refl)
  | inr f ↦ rw f (omega arith, refl)
]

-- A request that is let through uses one unit of the budget.
visit-budget :
    (l : RateLimiter) (end start now : ℕ) (o : Option Visitor)
    → start ≤ now
    → now ≤ end
    → Seen start o
    → (used (visit l now o).1 * l.rate + budget l end now (some (visit l now o).0)
        ≤ budget l end start o)
      × ((visit l now o).0.last_seen ≤ now)
unfolding visit
visit-budget l end start now none p q s =
    let v : Visitor = record { last_seen = now; tokens = l.burst } in
    omega (
      arith,
      refill-budget l end now v (omega arith) q,
      take_token-budget l end now (refill l now v),
    )
visit-budget l end start now (some v) p q s =
    omega (
      arith,
      refill-budget l end now v (omega arith) q,
      take_token-budget l end now (refill l now v),
    )

-- A visitor that is forgotten had a full burst to use.
kept-budget :
    (l : RateLimiter) (end start now : ℕ) (o : Option Visitor)
    → l.burst * l.rate ≤ max_age
    → start ≤ now
    → now ≤ end
    → Seen start o
    → (budget l end now (kept now o) ≤ budget l end start o) × Seen now (kept now o)
kept-budget l end start now none small p q s = (omega arith, tt)
kept-budget l end start now (some v) small p q s =
    elim (Bool-cases (ltb max_age (now - v.last_seen))) [
      | inl old ↦ rw old (ground arith, tt)
      | inr new ↦ rw new (omega arith, omega arith)
    ]

-- The budget of an address falls as time passes.
waiting-budget :
    (l : RateLimiter) (end start now : ℕ) (o : Option Visitor)
    → start ≤ now
    → now ≤ end
    → Seen start o
    → (budget l end now o ≤ budget l end start o) × Seen now o
waiting-budget l end start now none p q s = (omega arith, tt)
waiting-budget l end start now (some v) p q s = (omega arith, omega arith)

counted_other : (b : Bool) (j ip : String) → str_eq j ip ≡ false → counted b j ip ≡ 0
counted_other true j ip h = rw h refl
counted_other false j ip h = refl

counted_same : (b : Bool) (j ip : String) → str_eq j ip ≡ true → counted b j ip ≡ used b
counted_same true j ip h = rw h refl
counted_same false j ip h = refl

distribute : (a b c r x y : ℕ) → a ≡ c → b * r ≤ x → c * r + x ≤ y → (a + b) * r ≤ y
distribute a b c r x y e h k = grind arith

module _ (l : RateLimiter) (ip : String) (small : l.burst * l.rate ≤ max_age) where
  Within-le : (start end : ℕ) (es : List (ℕ × Event)) → Within start end es → start ≤ end
  Within-le start end [] w = w
  Within-le start end ((t, e) ∷ es) w = omega (arith, w.0, Within-le t end es w.1)

  pub passed-budget :
      (end start : ℕ) (es : List (ℕ × Event)) (vs : Visitors) (o : Option Visitor)
      → Within start end es
      → OneEach vs
      → find_visitor ip vs ≡ o
      → Seen start o
      → passed l ip es vs * l.rate ≤ budget l end start o
  unfolding passed allow
  passed-budget end start [] vs o w d f s = omega arith
  passed-budget end start ((t, sweep) ∷ es) vs o w d f s =
      let (le, seen) = kept-budget l end start t o small w.0 (Within-le t end es w.1) s in
      let found = find_visitor-cleanup_visitors t ip vs d ∙ ap (kept t) f in
      omega (
        arith,
        le,
        passed-budget end t es (cleanup_visitors t vs) (kept t o) w.1
            (OneEach-cleanup_visitors t vs d) found seen,
      )
  passed-budget end start ((t, request j) ∷ es) vs o w d f s =
      let stop = Within-le t end es w.1 in
      let v = (visit l t (find_visitor j vs)).0 in
      let one = OneEach-put_visitor j v vs d in
      elim (Bool-cases (str_eq j ip)) [
        | inl same ↦
            let found = ap (λ i. find_visitor i vs) ((eq_iff j ip).0 same) ∙ f in
            let (le, seen) = visit-budget l end start t o w.0 stop s in
            let rest =
              passed-budget end t es (put_visitor j v vs) (some (visit l t o).0) w.1 one
                (ap (λ i. find_visitor i (put_visitor j v vs)) (sym ((eq_iff j ip).0 same))
                  ∙ find_visitor-put_visitor j v vs
                  ∙ ap (λ x. some (visit l t x).0) found)
                seen in
            distribute _ _ _ _ _ _
              (counted_same (visit l t (find_visitor j vs)).1 j ip same
                ∙ ap (λ x. used (visit l t x).1) found)
              rest le
        | inr other ↦
            let (le, seen) = waiting-budget l end start t o w.0 stop s in
            let rest =
              passed-budget end t es (put_visitor j v vs) o w.1 one
                (find_visitor-put_other ip j v vs other ∙ f) seen in
            distribute _ _ 0 _ _ _ (counted_other (visit l t (find_visitor j vs)).1 j ip other) rest
              (omega (arith, le))
      ]

-- For a rate limiter without visitors at the start, whose burst is earned in at most the ten
-- minutes after which a visitor is forgotten: of the requests of an address from `start` until
-- `end`, among those of other addresses and sweeps of the map, in the order of their times, at most
-- a burst and those that the time between requests allows are let through.
pub passed_bound :
    (l : RateLimiter) (ip : String) (start end : ℕ) (es : List (ℕ × Event))
    → l.burst * l.rate ≤ max_age
    → Within start end es
    → passed l ip es [] * l.rate ≤ l.burst * l.rate + (end - start)
unfolding find_visitor
passed_bound l ip start end es small w = passed-budget l ip small end start es [] none w tt refl tt

rested_lem :
    (l : RateLimiter) (now : ℕ) (v : Visitor)
    → 0 < l.burst
    → 0 < (now - v.last_seen) / l.rate
    → (take_token (refill l now v)).1 ≡ true
unfolding refill take_token
rested_lem l now v h k = ground arith

fresh_lem :
    (l : RateLimiter) (now : ℕ) (v : Visitor)
    → 0 < l.burst
    → 0 < v.tokens
    → (take_token (refill l now v)).1 ≡ true
unfolding refill take_token
fresh_lem l now v h k = ground arith

-- Where the burst and the time between requests are not 0: an address that is not known, or that
-- was not seen for the time between requests, is let through.
pub allow_rested :
    (l : RateLimiter) (ip : String) (t now : ℕ) (vs : Visitors)
    → 0 < l.burst
    → 0 < l.rate
    → Seen t (find_visitor ip vs)
    → t + l.rate ≤ now
    → (allow l now ip vs).1 ≡ true
unfolding allow visit
allow_rested l ip t now vs h k s le = allowed (find_visitor ip vs) s
  where
    allowed : (o : Option Visitor) → Seen t o → (visit l now o).1 ≡ true
    allowed none s = fresh_lem l now (record { last_seen = now; tokens = l.burst }) h h
    allowed (some v) s = rested_lem l now v h ((le-div_iff_mul-le k).1 (omega arith))

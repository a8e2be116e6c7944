-- ===== src/Tests/RateLimit.antt =====
-- Two requests of one address and one of another, under a limiter of one request in a second and
-- bursts of one.
use passwall_server.Base.{ℕ, ◌+◌, ◌-◌, ◌*◌, ◌≤◌, List, [], ◌∷◌, true, ◌≡◌, refl, arith}
use passwall_server.RateLimit.Limiter.{
  RateLimiter, find_visitor, put_visitor, cleanup_visitors, allow,
}
use passwall_server.RateLimit.Budget.{Event, request, sweep, passed, passed_bound, allow_rested}

abbrev limiter : RateLimiter
limiter = record { rate = 1_000_000_000; burst = 1 }

abbrev events : List (ℕ × Event)
events = (5, request "a") ∷ (6, request "a") ∷ (7, sweep) ∷ (8, request "b") ∷ []

passed_one : passed limiter "a" events [] ≡ 1
unfolding passed allow find_visitor put_visitor cleanup_visitors
passed_one = refl

passed_bound_example :
    passed limiter "a" events [] * limiter.rate ≤ limiter.burst * limiter.rate + (9 - 0)
passed_bound_example =
    passed_bound limiter "a" 0 9 events (omega arith)
      (omega arith, (omega arith, (omega arith, (omega arith, omega arith))))

allow_rested_example :
    (allow limiter 2_000_000_000 "a" (("a", record { last_seen = 5; tokens = 0 }) ∷ [])).1 ≡ true
unfolding find_visitor
allow_rested_example =
    allow_rested limiter "a" 5 2_000_000_000 (("a", record { last_seen = 5; tokens = 0 }) ∷ [])
      (omega arith) (omega arith) (omega arith) (omega arith)

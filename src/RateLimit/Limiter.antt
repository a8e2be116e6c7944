-- ===== src/RateLimit/Limiter.antt =====
-- The rate limiter (internal/handler/http/ratelimit.go). Times and durations are numbers of
-- nanoseconds; the burst is a natural number. Each request runs under the limiter's locks and so as
-- one step; it reads the clock once. A request that finds the limit answers 429, one that does not
-- goes on.
use passwall_server.Base.{
  ℕ, ◌+◌, ◌-◌, ◌/◌, Option, none, some, String, Bool, true, false, List, [], ◌∷◌, str_eq, ltb,
  if◌then◌else◌,
}

-- What stays: the time between requests and the size of a burst.
pub record RateLimiter : Type 0 where
  pub rate : ℕ
  pub burst : ℕ

pub record Visitor : Type 0 where
  pub last_seen : ℕ
  pub tokens : ℕ

abbrev pub Visitors : Type 0
Visitors = List (String × Visitor)

unfoldable pub find_visitor : String → Visitors → Option Visitor
find_visitor ip [] = none
find_visitor ip ((j, v) ∷ vs) = if str_eq j ip then some v else find_visitor ip vs

unfoldable pub put_visitor : String → Visitor → Visitors → Visitors
put_visitor ip v [] = (ip, v) ∷ []
put_visitor ip v ((j, w) ∷ vs) =
    let rest = put_visitor ip v vs in if str_eq j ip then (ip, v) ∷ vs else (j, w) ∷ rest

abbrev pub visitor_or_new : RateLimiter → ℕ → Option Visitor → Visitor
visitor_or_new l now (some v) = v
visitor_or_new l now none = record { last_seen = now; tokens = l.burst }

-- Tokens for the time that passed, at most a burst.
unfoldable pub refill : RateLimiter → ℕ → Visitor → Visitor
refill l now v =
    let tokens_to_add = (now - v.last_seen) / l.rate in
    if ltb 0 tokens_to_add
    then record {
      last_seen = now;
      tokens = if ltb l.burst (v.tokens + tokens_to_add) then l.burst else v.tokens + tokens_to_add;
    }
    else v

unfoldable pub take_token : Visitor → Visitor × Bool
take_token v = if ltb 0 v.tokens then (record v { tokens = v.tokens - 1 }, true) else (v, false)

unfoldable pub visit : RateLimiter → ℕ → Option Visitor → Visitor × Bool
unfolding refill take_token
visit l now o = take_token (refill l now (visitor_or_new l now o))

unfoldable pub allow : RateLimiter → ℕ → String → Visitors → Visitors × Bool
unfolding visit
allow l now ip vs =
    let (v, allowed) = visit l now (find_visitor ip vs) in (put_visitor ip v vs, allowed)

-- The loop of cleanupVisitors: those not seen for ten minutes are forgotten.
abbrev pub max_age : ℕ
max_age = 600_000_000_000

unfoldable pub cleanup_visitors : ℕ → Visitors → Visitors
cleanup_visitors now [] = []
cleanup_visitors now ((j, v) ∷ vs) =
    let rest = cleanup_visitors now vs in
    if ltb max_age (now - v.last_seen) then rest else (j, v) ∷ rest

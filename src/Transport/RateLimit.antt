-- ===== src/Transport/RateLimit.antt =====
-- crates/ussl-transport/src/rate_limit.rs: the token bucket. An `Instant` is a number of
-- nanoseconds, and the clock that a call reads is its argument `now`. A call is one step, as it is
-- for a limiter that one task uses.
pub mod Bounds
pub mod Burst
use ussl.Prelude.{
  ℕ, zero, suc, ◌+◌, ◌-◌, ◌*◌, ◌/◌, ◌%◌, ◌^◌, min, Bool, true, false, List, [], ◌∷◌, ltb,
  if◌then◌else◌,
}
use ussl.Prelude.Word.{u64_mod, add64, mul64}

pub record RateLimitConfig : Type 0 where
  pub requests_per_second : ℕ
  pub burst_size : ℕ

-- `RateLimitConfig::from_rate`; the product is one of 32 bits
unfoldable pub from_rate : ℕ → RateLimitConfig
from_rate rate = record { requests_per_second = rate; burst_size = (rate * 2) % 2 ^ 32 }

-- `RateLimitConfig::default`
abbrev pub default_config : RateLimitConfig
default_config = record { requests_per_second = 1000; burst_size = 2000 }

-- Tokens are counted in thousandths.
pub record RateLimiter : Type 0 where
  pub tokens : ℕ
  pub last_refill : ℕ
  pub config : RateLimitConfig
  pub tokens_per_ms : ℕ
  pub max_tokens : ℕ

unfoldable pub new_limiter : ℕ → RateLimitConfig → RateLimiter
new_limiter now config = record {
  tokens = mul64 config.burst_size 1000;
  last_refill = now;
  config = config;
  tokens_per_ms = mul64 config.requests_per_second 1000 / 1000;
  max_tokens = mul64 config.burst_size 1000;
}

-- `now.duration_since(*last).as_millis()`, which is 0 for an earlier time
unfoldable pub elapsed_ms : ℕ → ℕ → ℕ
elapsed_ms now last = (now - last) / 1000000

-- the new tokens of a refill; the milliseconds are cast to 64 bits
unfoldable pub new_tokens : ℕ → RateLimiter → ℕ
unfolding elapsed_ms
new_tokens now l = mul64 l.tokens_per_ms (elapsed_ms now l.last_refill % u64_mod)

-- `RateLimiter::refill`
unfoldable pub refill : ℕ → RateLimiter → RateLimiter
refill now l =
    if ltb 0 (elapsed_ms now l.last_refill)
    then (if ltb 0 (new_tokens now l)
        then record l {
          last_refill = now;
          tokens = min (add64 l.tokens (new_tokens now l)) l.max_tokens;
        }
        else l)
    else l

-- the loop of `try_acquire`, without another task that changes the tokens in between
abbrev pub take_token : RateLimiter → Bool × RateLimiter
take_token l =
    if ltb l.tokens 1000 then (false, l) else (true, record l { tokens = l.tokens - 1000 })

-- `RateLimiter::try_acquire`
unfoldable pub try_acquire : ℕ → RateLimiter → Bool × RateLimiter
try_acquire now l = take_token (refill now l)

-- `RateLimiter::would_limit`
unfoldable pub would_limit : ℕ → RateLimiter → Bool × RateLimiter
would_limit now l = let l' = refill now l in (ltb l'.tokens 1000, l')

-- `RateLimiter::available_tokens`
unfoldable pub available_tokens : ℕ → RateLimiter → ℕ × RateLimiter
available_tokens now l = let l' = refill now l in ((l'.tokens / 1000) % 2 ^ 32, l')

-- `RateLimiter::reset`
unfoldable pub reset : ℕ → RateLimiter → RateLimiter
reset now l = record l { tokens = l.max_tokens; last_refill = now }

-- How many of the calls of `try_acquire` at these times are let through, and the limiter after them.
unfoldable pub acquire_all : List ℕ → RateLimiter → ℕ × RateLimiter
acquire_all [] l = (0, l)
acquire_all (now ∷ times) l =
    let r = try_acquire now l in
    let rest = acquire_all times r.1 in ((if r.0 then rest.0 + 1 else rest.0), rest.1)

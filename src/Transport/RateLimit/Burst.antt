-- ===== src/Transport/RateLimit/Burst.antt =====
-- crates/ussl-transport/src/rate_limit.rs: calls at one instant, and after a pause.
use ussl.Prelude.{
  ℕ, zero, suc, ◌+◌, ◌-◌, ◌*◌, ◌/◌, ◌^◌, ◌≤◌, ◌<◌, ◌≡◌, refl, ap, ◌∙◌, min, true, false, not, List,
  [], ◌∷◌, ltb, arith, Bool-cases, inl, inr,
}
use ussl.Prelude.Word.{add64, mul64}
use ussl.Transport.RateLimit.{
  RateLimitConfig, RateLimiter, new_limiter, elapsed_ms, new_tokens, refill, take_token,
  try_acquire, would_limit, acquire_all,
}

-- so many calls at one time
abbrev pub repeated : ℕ → ℕ → List ℕ
repeated zero now = []
repeated (suc n) now = now ∷ repeated n now

elapsed_none : (now : ℕ) → ltb 0 ((now - now) / 1000000) ≡ false
elapsed_none now = ground arith

refill_now : (now : ℕ) (l : RateLimiter) → l.last_refill ≡ now → refill now l ≡ l
unfolding refill elapsed_ms
refill_now now l e = rw (e, elapsed_none now) refl

refill_again : (now : ℕ) (l : RateLimiter) → refill now (refill now l) ≡ refill now l
unfolding refill
refill_again now l = elim (Bool-cases (ltb 0 (elapsed_ms now l.last_refill))) [
  | inr e ↦ rw (e, e) refl
  | inl e ↦ elim (Bool-cases (ltb 0 (new_tokens now l))) [
    | inr g ↦ rw (e, g) (rw (e, g) refl)
    | inl g ↦ rw (e, g) (refill_now now _ refl)
  ]
]

-- `would_limit` says whether `try_acquire` would refuse, and asking it changes nothing for the call of
-- `try_acquire` at the same time.
would_limit-try_acquire :
    (now : ℕ) (l : RateLimiter)
    → ((would_limit now l).0 ≡ not (try_acquire now l).0)
      × (try_acquire now (would_limit now l).1 ≡ try_acquire now l)
unfolding would_limit try_acquire
would_limit-try_acquire now l = (ground arith, ap take_token (refill_again now l))

acquire_all_now :
    (n now : ℕ) (l : RateLimiter)
    → l.last_refill ≡ now
    → (acquire_all (repeated n now) l).0 ≡ min n (l.tokens / 1000)
unfolding acquire_all try_acquire
acquire_all_now zero now l e = omega arith
acquire_all_now (suc n) now l e = rw (refill_now now l e) (elim (Bool-cases (ltb l.tokens 1000)) [
  | inl g ↦ rw g (let rest = acquire_all_now n now l e in ground arith)
  | inr g ↦
      rw g
        (let rest = acquire_all_now n now (record l { tokens = l.tokens - 1000 }) e in ground arith)
])

-- Of any number of calls at the instant at which a limiter was made the first `burst_size`, a number
-- of 32 bits, are let through, and no more.
acquire_all-repeated :
    (n now : ℕ) (config : RateLimitConfig)
    → config.burst_size < 2 ^ 32
    → (acquire_all (repeated n now) (new_limiter now config)).0 ≡ min n config.burst_size
unfolding new_limiter
acquire_all-repeated n now config h =
    acquire_all_now n now (new_limiter now config) refl ∙ ap (min n) (unfold mul64 in ground arith)

-- A call is let through when the time since the last refill has brought a whole token, for a limiter
-- that can hold one and counts within 64 bits.
try_acquire_after :
    (now : ℕ) (l : RateLimiter)
    → 1000 ≤ l.max_tokens
    → 1000 ≤ l.tokens_per_ms * elapsed_ms now l.last_refill
    → l.tokens + l.tokens_per_ms * elapsed_ms now l.last_refill < 2 ^ 64
    → elapsed_ms now l.last_refill < 2 ^ 64
    → (try_acquire now l).0 ≡ true
unfolding try_acquire refill
try_acquire_after now l h r o c =
    let ms = elapsed_ms now l.last_refill in unfold new_tokens mul64 add64 in ground arith

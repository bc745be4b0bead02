-- ===== src/Transport/RateLimit/Bounds.antt =====
-- crates/ussl-transport/src/rate_limit.rs: how much a limiter lets through.
use native.Mathlib.Nat.{mul-add, mul-le-mul_left, mul_left_comm, mul-le-mul_right}
use ussl.Prelude.{
  ℕ, ◌+◌, ◌-◌, ◌*◌, ◌/◌, ◌%◌, ◌≤◌, ◌≡◌, refl, sym, ap, ◌∙◌, Bool, true, false, List, [], ◌∷◌, ltb,
  arith, if◌then◌else◌, All, Bool-cases, inl, inr,
}
use ussl.Prelude.Word.{u64_mod, mul64, add64-le, mul64-le}
use ussl.Transport.RateLimit.{
  RateLimitConfig, RateLimiter, new_limiter, elapsed_ms, new_tokens, refill, take_token,
  try_acquire, acquire_all,
}

-- The tokens there are and those that can come until `end`, in 10^-9 of a token.
abbrev potential : ℕ → RateLimiter → ℕ
potential end l = 1000000 * l.tokens + l.tokens_per_ms * (end - l.last_refill)

split_time :
    (r last now end : ℕ)
    → last ≤ now
    → now ≤ end
    → r * (now - last) + r * (end - now) ≡ r * (end - last)
split_time r last now end a b =
    rw (sym (mul-add r (now - last) (end - now))) (ap (λ t. r * t) (omega arith))

mod_le : (n : ℕ) → n % u64_mod ≤ n
mod_le n = omega arith

div_le : (n : ℕ) → 1000000 * (n / 1000000) ≤ n
div_le n = omega arith

new_tokens-le :
    (now : ℕ) (l : RateLimiter)
    → 1000000 * new_tokens now l ≤ l.tokens_per_ms * (now - l.last_refill)
unfolding new_tokens elapsed_ms
new_tokens-le now l =
    let r = l.tokens_per_ms in
    let ms = (now - l.last_refill) / 1000000 in
    let wrapped = mul64-le r (ms % u64_mod) in
    let cast = mul-le-mul_left r (mod_le ms) in
    let whole = mul-le-mul_left r (div_le (now - l.last_refill)) in
    let order = mul_left_comm r 1000000 ms in omega arith

elapsed_after :
    (now : ℕ) (l : RateLimiter)
    → ltb 0 ((now - l.last_refill) / 1000000) ≡ true
    → l.last_refill ≤ now
elapsed_after now l e = ground arith

record Bounded (end : ℕ) (l l' : RateLimiter) (granted : ℕ) : Type 0 where
  last : l'.last_refill ≤ end
  rate : l'.tokens_per_ms ≡ l.tokens_per_ms
  spent : potential end l' + 1000000000 * granted ≤ potential end l

refill-Bounded :
    (now end : ℕ) (l : RateLimiter)
    → now ≤ end
    → l.last_refill ≤ end
    → Bounded end l (refill now l) 0
unfolding refill elapsed_ms
refill-Bounded now end l n h =
    let come = new_tokens-le now l in
    let total = add64-le l.tokens (new_tokens now l) in
    elim (Bool-cases (ltb 0 ((now - l.last_refill) / 1000000))) [
      | inr e ↦ rw e (record { last = h; rate = refl; spent = omega arith })
      | inl e ↦ elim (Bool-cases (ltb 0 (new_tokens now l))) [
        | inr g ↦ rw (e, g) (record { last = h; rate = refl; spent = omega arith })
        | inl g ↦
            rw (e, g)
              (record {
                last = n;
                rate = refl;
                spent =
                    let split =
                      split_time l.tokens_per_ms l.last_refill now end (elapsed_after now l e) n in
                    omega arith;
              })
      ]
    ]

take_token-Bounded :
    (end : ℕ) (l : RateLimiter)
    → l.last_refill ≤ end
    → Bounded end l (take_token l).1 (if (take_token l).0 then 1 else 0)
take_token-Bounded end l h = elim (Bool-cases (ltb l.tokens 1000)) [
  | inl e ↦ rw e (record { last = h; rate = refl; spent = omega arith })
  | inr e ↦ rw e (record {
    last = h;
    rate = refl;
    spent = let enough : 1000 ≤ l.tokens = ground arith in omega arith;
  })
]

rate_le :
    (config : RateLimitConfig)
    → mul64 config.requests_per_second 1000 / 1000 ≤ config.requests_per_second
rate_le config = let h = mul64-le config.requests_per_second 1000 in omega arith

-- The sum of three steps, of which the second lets a call through or not.
counted :
    (granted : Bool) (p q r s n : ℕ)
    → q + 1000000000 * 0 ≤ s
    → r + 1000000000 * (if granted then 1 else 0) ≤ q
    → p + 1000000000 * n ≤ r
    → p + 1000000000 * (if granted then n + 1 else n) ≤ s
counted true p q r s n x y z = omega arith
counted false p q r s n x y z = omega arith

acquire_all-Bounded :
    (end : ℕ) (times : List ℕ) (l : RateLimiter)
    → All (λ t. t ≤ end) times
    → l.last_refill ≤ end
    → Bounded end l (acquire_all times l).1 (acquire_all times l).0
unfolding acquire_all try_acquire
acquire_all-Bounded end [] l h g = record { last = g; rate = refl; spent = omega arith }
acquire_all-Bounded end (now ∷ times) l h g =
    let a = refill-Bounded now end l h.0 g in
    let b = take_token-Bounded end (refill now l) a.last in
    let c = acquire_all-Bounded end times (take_token (refill now l)).1 h.1 b.last in
    record {
      last = c.last;
      rate = c.rate ∙ b.rate ∙ a.rate;
      spent = counted (take_token (refill now l)).0 _ _ _ _ _ a.spent b.spent c.spent;
    }

-- Whatever the order of the times at which calls ask for a token, up to a time `end` no more calls
-- are let through than the burst size and the rate times the time since the limiter was made.
pub acquire_all-le :
    (start end : ℕ) (config : RateLimitConfig) (times : List ℕ)
    → start ≤ end
    → All (λ t. t ≤ end) times
    → 1000000000 * (acquire_all times (new_limiter start config)).0
      ≤ 1000000000 * config.burst_size + config.requests_per_second * (end - start)
unfolding new_limiter
acquire_all-le start end config times s h =
    let b = acquire_all-Bounded end times (new_limiter start config) h s in
    let spent = b.spent in
    let burst = mul64-le config.burst_size 1000 in
    let rate = mul64-le config.requests_per_second 1000 in
    let scaled = mul-le-mul_right (end - start) (rate_le config) in omega arith

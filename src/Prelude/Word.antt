-- ===== src/Prelude/Word.antt =====
-- 64-bit integers. The release build of the source wraps; `to_i64` is the cast `as i64`.
use ussl.Prelude.{ℕ, ◌+◌, ◌-◌, ◌*◌, ◌%◌, ◌^◌, ◌≤◌, ◌<◌, ◌≡◌, arith, ltb, if◌then◌else◌}
use ussl.Prelude.Int.{ℤ, pos, negsuc, pos_part, neg_part, ◌+ℤ◌, ◌-ℤ◌}

abbrev pub u64_mod : ℕ
u64_mod = 2 ^ 64

unfoldable pub add64 : ℕ → ℕ → ℕ
add64 a b = (a + b) % u64_mod

unfoldable pub mul64 : ℕ → ℕ → ℕ
mul64 a b = (a * b) % u64_mod

unfoldable pub sub64 : ℕ → ℕ → ℕ
sub64 a b = (a + (u64_mod - b % u64_mod)) % u64_mod

unfoldable pub to_i64 : ℕ → ℤ
to_i64 n = if ltb n (2 ^ 63) then pos n else negsuc (u64_mod - n - 1)

unfoldable pub wrap_i64 : ℤ → ℤ
unfolding to_i64
wrap_i64 z = to_i64 ((pos_part z + (u64_mod - neg_part z % u64_mod)) % u64_mod)

unfoldable pub add_i64 : ℤ → ℤ → ℤ
add_i64 a b = wrap_i64 (a +ℤ b)

unfoldable pub sub_i64 : ℤ → ℤ → ℤ
sub_i64 a b = wrap_i64 (a -ℤ b)

pub record IsI64 (z : ℤ) : Type 0 where
  pub above : pos_part z < 2 ^ 63
  pub below : neg_part z ≤ 2 ^ 63

pub wrap_i64-eq_self : (z : ℤ) → IsI64 z → wrap_i64 z ≡ z
unfolding wrap_i64
wrap_i64-eq_self (pos n) h = ground arith
wrap_i64-eq_self (negsuc n) h = ground arith

pub add_i64-eq_add : (a b : ℤ) → IsI64 (a +ℤ b) → add_i64 a b ≡ a +ℤ b
unfolding add_i64
add_i64-eq_add a b h = wrap_i64-eq_self (a +ℤ b) h

pub add64-le : (a b : ℕ) → add64 a b ≤ a + b
unfolding add64
add64-le a b = omega arith

pub mul64-le : (a b : ℕ) → mul64 a b ≤ a * b
unfolding mul64
mul64-le a b = omega arith

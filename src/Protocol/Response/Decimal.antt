-- ===== src/Protocol/Response/Decimal.antt =====
-- `to_string` of the integers that crates/ussl-protocol/src/response.rs writes, and the reading of a
-- length that ends its line.
use ussl.Prelude.{
  ℕ, zero, suc, ◌+◌, ◌-◌, ◌*◌, ◌/◌, ◌%◌, ◌^◌, ◌<◌, ◌≡◌, refl, ap, ◌&&◌, [], ◌∷◌, ◌++◌, Option, none,
  some, ltb, leb, ◌==◌, arith, if◌then◌else◌,
}
use ussl.Prelude.Int.{ℤ, pos, negsuc}
use ussl.Text.{Text}

-- The decimal digits of a number in front of `acc`, at most so many.
unfoldable pub show_from : ℕ → ℕ → Text → Text
show_from zero n acc = acc
show_from (suc f) n acc =
    let rest = show_from f (n / 10) ((b'0' + n % 10) ∷ acc) in
    if ltb n 10 then (b'0' + n) ∷ acc else rest

-- A number below 2^64 has 20 digits at most.
unfoldable pub show : ℕ → Text
show n = show_from 20 n []

unfoldable pub show_int : ℤ → Text
show_int (pos n) = show n
show_int (negsuc n) = b'-' ∷ show (suc n)

-- a number and the end of its line, behind digits that have come to `n`
unfoldable pub read_length : ℕ → Text → Option (ℕ × Text)
read_length n [] = none
read_length n (c ∷ s) =
    let rest = read_length (n * 10 + (c - b'0')) s in
    if leb b'0' c && leb c b'9' then rest else line_end n c s
  where
    line_end : ℕ → ℕ → Text → Option (ℕ × Text)
    line_end m c [] = none
    line_end m c (d ∷ s) = if c == 13 && d == 10 then some (m, s) else none

div_below : (n f : ℕ) → n < 10 ^ suc f → n / 10 < 10 ^ f
div_below n f h = omega arith

read_length-show_from :
    (f n : ℕ) (acc : Text) → n < 10 ^ f → read_length 0 (show_from f n acc) ≡ read_length n acc
unfolding show_from read_length
read_length-show_from zero n acc h = ap (λ k. read_length k acc) zero_only
  where
    zero_only : 0 ≡ n
    zero_only = omega arith
read_length-show_from (suc f) n acc h =
    let rest = read_length-show_from f (n / 10) ((b'0' + n % 10) ∷ acc) (div_below n f h) in
    ground arith

show_from-append : (f n : ℕ) (acc s : Text) → show_from f n acc ++ s ≡ show_from f n (acc ++ s)
unfolding show_from
show_from-append zero n acc s = refl
show_from-append (suc f) n acc s =
    let rest = show_from-append f (n / 10) ((b'0' + n % 10) ∷ acc) s in ground arith

pub read_length-show :
    (n : ℕ) (s : Text) → n < 2 ^ 64 → read_length 0 (show n ++ 13 ∷ 10 ∷ s) ≡ some (n, s)
unfolding show
read_length-show n s h =
    rw
      (
        show_from-append 20 n [] (13 ∷ 10 ∷ s),
        read_length-show_from 20 n (13 ∷ 10 ∷ s) (omega arith),
      )
      (unfold read_length in refl)

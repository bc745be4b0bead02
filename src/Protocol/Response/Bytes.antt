-- ===== src/Protocol/Response/Bytes.antt =====
-- The bytes of which the numbers and the base64 of crates/ussl-protocol/src/response.rs consist.
use ussl.Prelude.{
  ℕ, zero, suc, ◌+◌, ◌*◌, ◌/◌, ◌%◌, ◌<◌, ◌≡◌, refl, Bool, true, Bool-cases, inl, inr, [], ◌∷◌, ltb,
  arith, all,
}
use ussl.Prelude.Int.{ℤ, pos, negsuc}
use ussl.Text.{Text}
use ussl.Protocol.Response.Decimal.{show, show_from, show_int}
use ussl.Protocol.Response.Base64.{alphabet, nth, symbol, base64_encode}

module _ (p : ℕ → Bool) where
  show_from-all :
      ((d : ℕ) → d < 10 → p (b'0' + d) ≡ true)
      → (f n : ℕ) (acc : Text) → all p acc ≡ true
      → all p (show_from f n acc) ≡ true
  unfolding show_from
  show_from-all digits zero n acc h = h
  show_from-all digits (suc f) n acc h =
      let last = digits (n % 10) (omega arith) in
      let rest = show_from-all digits f (n / 10) ((b'0' + n % 10) ∷ acc) (ground arith) in
      elim (Bool-cases (ltb n 10)) [
        | inl e ↦ let one = digits n (ground arith) in ground arith
        | inr e ↦ ground arith
      ]

  -- A number consists of digits.
  pub show-all : ((d : ℕ) → d < 10 → p (b'0' + d) ≡ true) → (n : ℕ) → all p (show n) ≡ true
  unfolding show
  show-all digits n = show_from-all digits 20 n [] refl

  pub show_int-all :
      ((d : ℕ) → d < 10 → p (b'0' + d) ≡ true) → p b'-' ≡ true → (n : ℤ) → all p (show_int n) ≡ true
  unfolding show_int
  show_int-all digits minus (pos n) = show-all digits n
  show_int-all digits minus (negsuc n) = let rest = show-all digits (suc n) in ground arith

  nth-all : (i : ℕ) (s : Text) → p 0 ≡ true → all p s ≡ true → p (nth i s) ≡ true
  nth-all i [] z h = z
  nth-all zero (c ∷ s) z h = ground arith
  nth-all (suc i) (c ∷ s) z h = nth-all i s z (ground arith)

  symbol-all : p 0 ≡ true → all p alphabet ≡ true → (i : ℕ) → p (symbol i) ≡ true
  unfolding symbol
  symbol-all z h i = nth-all i alphabet z h

  pub base64_encode-all :
      p 0 ≡ true
      → p b'=' ≡ true
      → all p alphabet ≡ true
      → (s : Text) → all p (base64_encode s) ≡ true
  unfolding base64_encode
  base64_encode-all z e h [] = refl
  base64_encode-all z e h (b0 ∷ []) =
      rw (symbol-all z h (b0 / 4), symbol-all z h (b0 % 4 * 16 + 0 / 16), e) refl
  base64_encode-all z e h (b0 ∷ b1 ∷ []) =
      rw
        (
          symbol-all z h (b0 / 4),
          symbol-all z h (b0 % 4 * 16 + b1 / 16),
          symbol-all z h (b1 % 16 * 4 + 0 / 64),
          e,
        )
        refl
  base64_encode-all z e h (b0 ∷ b1 ∷ b2 ∷ bytes) =
      rw
        (
          symbol-all z h (b0 / 4),
          symbol-all z h (b0 % 4 * 16 + b1 / 16),
          symbol-all z h (b1 % 16 * 4 + b2 / 64),
          symbol-all z h (b2 % 64),
          base64_encode-all z e h bytes,
        )
        refl

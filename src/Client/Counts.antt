-- ===== src/Client/Counts.antt =====
-- crates/ussl-cli/src/main.rs and crates/ussl-protocol/src/response.rs: a number of items is read as it was
-- written.
use ussl.Prelude.{
  ℕ, zero, suc, ◌+◌, ◌/◌, ◌%◌, ◌^◌, ◌<◌, ◌≡◌, refl, ap, sym, ◌∙◌, subst, true, false, not, [], ◌∷◌,
  some, all, ltb, ◌==◌, Bool-cases, inl, inr, arith,
}
use ussl.Text.{Text}
use ussl.Core.Path.{parse_usize, parse_digits}
use ussl.Protocol.Response.Decimal.{show, show_from}
use ussl.Protocol.Response.Bytes.{show-all}

parse_digits-show_from :
    (f n : ℕ) (acc : Text)
    → n < 10 ^ f
    → n < 2 ^ 64
    → parse_digits 0 (show_from f n acc) ≡ parse_digits n acc
unfolding show_from parse_digits
parse_digits-show_from zero n acc h k = ap (λ m. parse_digits m acc) zero_only
  where
    zero_only : 0 ≡ n
    zero_only = omega arith
parse_digits-show_from (suc f) n acc h k =
    let smaller : n / 10 < 10 ^ f = omega arith in
    let rest = parse_digits-show_from f (n / 10) ((b'0' + n % 10) ∷ acc) smaller (omega arith) in
    ground arith

show_from_filled :
    (f n c : ℕ) (acc : Text) → (d : ℕ) × (s : Text) × (show_from f n (c ∷ acc) ≡ d ∷ s)
unfolding show_from
show_from_filled zero n c acc = (c, acc, refl)
show_from_filled (suc f) n c acc = elim (Bool-cases (ltb n 10)) [
  | inl e ↦ (b'0' + n, c ∷ acc, rw e refl)
  | inr e ↦ let (d, s, h) = show_from_filled f (n / 10) (b'0' + n % 10) (c ∷ acc) in (d, s, rw e h)
]

-- A number has a digit at least.
show_filled : (n : ℕ) → (d : ℕ) × (s : Text) × (show n ≡ d ∷ s)
unfolding show show_from
show_filled n = elim (Bool-cases (ltb n 10)) [
  | inl e ↦ (b'0' + n, [], rw e refl)
  | inr e ↦ let (d, s, h) = show_from_filled 19 (n / 10) (b'0' + n % 10) [] in (d, s, rw e h)
]

parse_usize-digits :
    (c : ℕ) (s : Text)
    → all (λ d. not (d == b'+')) (c ∷ s) ≡ true
    → parse_usize (c ∷ s) ≡ parse_digits 0 (c ∷ s)
unfolding parse_usize
parse_usize-digits c [] h = refl
parse_usize-digits c (d ∷ s) h = let other : (c == b'+') ≡ false = ground arith in rw other refl

pub parse_usize-show : (n : ℕ) → n < 2 ^ 64 → parse_usize (show n) ≡ some n
parse_usize-show n h =
    let (d, s, e) = show_filled n in
    let digits = show-all (λ c. not (c == b'+')) (λ c k. ground arith) n in
    ap parse_usize e
    ∙ parse_usize-digits d s (subst (λ t. all (λ c. not (c == b'+')) t ≡ true) e digits)
    ∙ ap (parse_digits 0) (sym e)
    ∙ unfold show in parse_digits-show_from 20 n [] (omega arith) h ∙ unfold parse_digits in refl

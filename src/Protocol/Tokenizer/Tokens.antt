-- ===== src/Protocol/Tokenizer/Tokens.antt =====
-- The loops `while let Some(opt) = tokens.next()` of crates/ussl-protocol/src/parser.rs: the tokens
-- that `next` gives one after the other, and that the loops end.
use ussl.Prelude.{
  ℕ, zero, suc, ◌≤◌, ◌<◌, ◌≡◌, refl, ap, ◌∙◌, List, [], ◌∷◌, none, some, length, arith, ◌==◌,
  Option-cases, false, inl, inr,
}
use ussl.Text.{Text}
use ussl.Protocol.Tokenizer.{skip_spaces, find_quote, span_word, read_token, next_token}

-- the tokens of so many rounds at most
unfoldable pub tokens_from : ℕ → Text → List Text
tokens_from zero s = []
tokens_from (suc f) s = elim (next_token s).0 [
  | none ↦ []
  | some t ↦ t ∷ tokens_from f (next_token s).1
]

-- Each round takes a byte at least.
unfoldable pub tokens_of : Text → List Text
tokens_of s = tokens_from (length s) s

skip_spaces-length : (s : Text) → length (skip_spaces s) ≤ length s
unfolding skip_spaces
skip_spaces-length [] = omega arith
skip_spaces-length (c ∷ s) = let rest = skip_spaces-length s in ground arith

skip_spaces-head : (s : Text) (c : ℕ) (r : Text) → skip_spaces s ≡ c ∷ r → (c == b' ') ≡ false
unfolding skip_spaces
skip_spaces-head [] c r h = ground arith
skip_spaces-head (d ∷ s) c r h = let rest = skip_spaces-head s c r in ground arith

span_word-length : (s : Text) → length (span_word s).1 ≤ length s
unfolding span_word
span_word-length [] = omega arith
span_word-length (c ∷ s) = let rest = span_word-length s in ground arith

find_quote-length : (s t r : Text) → find_quote s ≡ some (t, r) → length r < length s
unfolding find_quote
find_quote-length [] t r h = ground arith
find_quote-length (c ∷ s) t r h = elim (Option-cases (find_quote s)) [
  | inl e ↦ ground arith
  | inr ((t', r'), e) ↦ let rest = find_quote-length s t' r' e in ground arith
]

-- A token takes a byte at least.
read_token-length :
    (c : ℕ) (s t : Text)
    → (c == b' ') ≡ false
    → (read_token (c ∷ s)).0 ≡ some t
    → length (read_token (c ∷ s)).1 < length (c ∷ s)
unfolding read_token span_word
read_token-length c s t n h =
    let w = span_word-length s in
    elim (Option-cases (find_quote s)) [
      | inl e ↦ ground arith
      | inr ((t', r'), e) ↦ let rest = find_quote-length s t' r' e in ground arith
    ]

next_token-length : (s t : Text) → (next_token s).0 ≡ some t → length (next_token s).1 < length s
unfolding next_token
next_token-length s t h = by_first (skip_spaces s) refl h
  where
    by_first :
        (u : Text)
        → skip_spaces s ≡ u
        → (read_token u).0 ≡ some t
        → length (read_token u).1 < length s
    by_first [] e g = unfold read_token in ground arith
    by_first (c ∷ u) e g =
        let short = skip_spaces-length s in
        let less = read_token-length c u t (skip_spaces-head s c u e) g in
        let same = ap length e in omega arith

tokens_from-agree :
    (f g : ℕ) (s : Text) → length s ≤ f → length s ≤ g → tokens_from f s ≡ tokens_from g s
unfolding tokens_from
tokens_from-agree zero zero s h k = refl
tokens_from-agree zero (suc g) [] h k = unfold next_token read_token skip_spaces in refl
tokens_from-agree (suc f) zero [] h k = unfold next_token read_token skip_spaces in refl
tokens_from-agree zero (suc g) (c ∷ s) h k = absurd (omega arith)
tokens_from-agree (suc f) zero (c ∷ s) h k = absurd (omega arith)
tokens_from-agree (suc f) (suc g) s h k = elim (Option-cases (next_token s).0) [
  | inl e ↦ rw (e, tokens_from) refl
  | inr (t, e) ↦
      let less = next_token-length s t e in
      rw (e, tokens_from)
        (ap (λ ts. t ∷ ts) (tokens_from-agree f g (next_token s).1 (omega arith) (omega arith)))
]

tokens_from-next_token :
    (f : ℕ) (s : Text)
    → length s ≤ f
    → tokens_from (suc f) s ≡ (elim (next_token s).0 as (λ x. List Text) [
      | none ↦ []
      | some t ↦ t ∷ tokens_of (next_token s).1
    ])
unfolding tokens_of tokens_from
tokens_from-next_token f s h = elim (Option-cases (next_token s).0) [
  | inl e ↦ rw (e, tokens_from) refl
  | inr (t, e) ↦
      let r = (next_token s).1 in
      let less = next_token-length s t e in
      rw (e, tokens_from)
        (ap (λ ts. t ∷ ts) (tokens_from-agree f (length r) r (omega arith) (omega arith)))
]

-- Any number of rounds from the length of the input on gives the same tokens, so that the loop ends
-- within as many; and the tokens are the next one, if there is one, and those of what it leaves.
pub tokens_of-next_token :
    (f : ℕ) (s : Text)
    → length s ≤ f
    → (tokens_from f s ≡ tokens_of s)
      × (tokens_of s ≡ (elim (next_token s).0 as (λ x. List Text) [
        | none ↦ []
        | some t ↦ t ∷ tokens_of (next_token s).1
      ]))
unfolding tokens_of
tokens_of-next_token f s h = (
  tokens_from-agree f (length s) s h (omega arith),
  tokens_from-agree (length s) (suc (length s)) s (omega arith) (omega arith)
      ∙ tokens_from-next_token (length s) s (omega arith),
)

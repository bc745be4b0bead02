-- ===== src/Client/Trimmed.antt =====
-- What `trim` leaves of a line that is typed, for crates/ussl-cli/src/main.rs: the line is sent trimmed, and the
-- parser of the server takes a carriage return at its end off.
use ussl.Prelude.{
  ℕ, zero, suc, ◌≡◌, refl, ap, Bool, true, false, [], ◌∷◌, all, arith, Bool-cases, inl, inr, ◌⊎◌,
  ◌==◌,
}
use ussl.Text.{Text}
use ussl.Text.Space.{trim, trim_end, skip_space, space_length, is_empty}
use ussl.Protocol.Parser.{without_return}

all-skip_space : (p : ℕ → Bool) (n : ℕ) (s : Text) → all p s ≡ true → all p (skip_space n s) ≡ true
unfolding skip_space
all-skip_space p n [] h = refl
all-skip_space p (suc n) (c ∷ s) h = all-skip_space p n s (ground arith)
all-skip_space p zero (c ∷ s) h =
    let tail : all p s ≡ true = ground arith in
    let rest = λ (k : ℕ). all-skip_space p k s tail in cases (space_length (c ∷ s)) rest
  where
    cases :
        (n : ℕ)
        → ((k : ℕ) → all p (skip_space k s) ≡ true)
        → all p (elim n as (λ k. Text) [ zero ↦ c ∷ s | suc k ↦ skip_space k s ]) ≡ true
    cases zero rest = h
    cases (suc k) rest = rest k

all-trim_end : (p : ℕ → Bool) (s : Text) → all p s ≡ true → all p (trim_end s) ≡ true
unfolding trim_end
all-trim_end p [] h = refl
all-trim_end p (c ∷ s) h = let rest = all-trim_end p s (ground arith) in ground arith

pub all-trim : (p : ℕ → Bool) (s : Text) → all p s ≡ true → all p (trim s) ≡ true
unfolding trim
all-trim p s h = all-trim_end p (skip_space zero s) (all-skip_space p zero s h)

kept_or_empty :
    (c : ℕ) (s : Text)
    → ((trim_end (c ∷ s) ≡ []) × (is_empty (skip_space zero (c ∷ s)) ≡ true))
      ⊎ ((trim_end (c ∷ s) ≡ c ∷ trim_end s) × (is_empty (skip_space zero (c ∷ s)) ≡ false))
unfolding trim_end
kept_or_empty c s = elim (Bool-cases (is_empty (skip_space zero (c ∷ s)))) [
  | inl e ↦ inl (rw e refl, e)
  | inr e ↦ inr (rw e refl, e)
]

empty_of_trim : (s : Text) → trim_end s ≡ [] → is_empty (skip_space zero s) ≡ true
empty_of_trim [] h = unfold skip_space in refl
empty_of_trim (c ∷ s) h = elim (kept_or_empty c s) [ inl k ↦ k.1 | inr k ↦ let same = k.0 in cc ]

-- A carriage return in front of white space goes with it.
no_return :
    (c : ℕ) (s : Text)
    → trim_end s ≡ []
    → is_empty (skip_space zero (c ∷ s)) ≡ false
    → (c == 13) ≡ false
unfolding skip_space space_length
no_return c s h k = elim (Bool-cases (c == 13)) [
  | inr e ↦ e
  | inl e ↦ let whole = empty_of_trim s h in ground arith
]

without_return-cons :
    (c : ℕ) (t : Text)
    → (t ≡ [] → (c == 13) ≡ false)
    → without_return t ≡ t
    → without_return (c ∷ t) ≡ c ∷ t
unfolding without_return
without_return-cons c [] h k = rw (h refl) refl
without_return-cons c (d ∷ t) h k = ap (λ s. c ∷ s) k

without_return-trim_end : (s : Text) → without_return (trim_end s) ≡ trim_end s
without_return-trim_end [] = unfold trim_end without_return in refl
without_return-trim_end (c ∷ s) = elim (kept_or_empty c s) [
  | inl k ↦ rw (k.0) (unfold without_return in refl)
  | inr k ↦
      rw (k.0)
        (without_return-cons c (trim_end s) (λ e. no_return c s e k.1) (without_return-trim_end s))
]

pub without_return-trim : (s : Text) → without_return (trim s) ≡ trim s
unfolding trim
without_return-trim s = without_return-trim_end (skip_space zero s)

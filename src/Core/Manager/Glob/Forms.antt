-- ===== src/Core/Manager/Glob/Forms.antt =====
-- crates/ussl-core/src/manager.rs: which keys a pattern matches.
use ussl.Prelude.{
  ℕ, ◌≡◌, ◌≢◌, refl, sym, ap, ◌↔◌, true, false, [], ◌∷◌, ◌++◌, none, some, arith, Bool-cases, inl,
  inr,
}
use ussl.Text.{
  Text, codes, text_eq, text_eq_iff, starts_with, ends_with, starts_with-append, starts_with→append,
}
use ussl.Core.Manager.Glob.{strip_star_suffix, strip_star_prefix, matches_pattern}

-- The three forms of a pattern: `p*`, `*s`, and a text that has no star at either end.
pub data Pattern : Type 0 where
  behind : Text → Pattern
  before : Text → Pattern
  exact : Text → Pattern

abbrev pub spell : Pattern → Text
spell (behind p) = p ++ b'*' ∷ []
spell (before s) = b'*' ∷ s
spell (exact t) = t

abbrev pub IsPattern : Pattern → Type 0
IsPattern (behind p) = Unit
IsPattern (before s) = (s ≢ []) × (strip_star_suffix s ≡ none)
IsPattern (exact t) = (strip_star_prefix t ≡ none) × (strip_star_suffix t ≡ none)

abbrev pub Matches : Pattern → Text → Type 0
Matches (behind p) key = (r : Text) × (key ≡ p ++ r)
Matches (before s) key = (r : Text) × (key ≡ r ++ s)
Matches (exact t) key = key ≡ t

strip_star_suffix-append : (p : Text) → strip_star_suffix (p ++ b'*' ∷ []) ≡ some p
unfolding strip_star_suffix
strip_star_suffix-append [] = refl
strip_star_suffix-append (c ∷ []) = refl
strip_star_suffix-append (c ∷ d ∷ p) = rw (strip_star_suffix-append (d ∷ p)) refl

ends_with-append : (s r : Text) → ends_with s (r ++ s) ≡ true
unfolding ends_with text_eq
ends_with-append [] [] = refl
ends_with-append (a ∷ s) [] = ground (arith, text_eq_iff s s)
ends_with-append s (a ∷ r) = ground (arith, ends_with-append s r)

ends_with→append : (s t : Text) → ends_with s t ≡ true → (r : Text) × (t ≡ r ++ s)
unfolding ends_with
ends_with→append s [] h = ([], sym ((text_eq_iff s []).0 h))
ends_with→append s (a ∷ t) h = elim (Bool-cases (text_eq s (a ∷ t))) [
  | inl e ↦ ([], sym ((text_eq_iff s (a ∷ t)).0 e))
  | inr e ↦ let (r, q) = ends_with→append s t (ground arith) in (a ∷ r, ap (λ x. a ∷ x) q)
]

long : (c : ℕ) (p : Text) → text_eq (c ∷ (p ++ b'*' ∷ [])) (codes "*") ≡ false
unfolding text_eq
long c [] = ground arith
long c (d ∷ p) = ground arith

no_star : (t : Text) → strip_star_prefix t ≡ none → t ≢ codes "*"
unfolding strip_star_prefix
no_star [] h e = cc
no_star (c ∷ t) h e = ground arith

behind-star : (p key : Text) → matches_pattern key (p ++ b'*' ∷ []) ≡ starts_with p key
unfolding matches_pattern starts_with text_eq
behind-star [] key = refl
behind-star (c ∷ p) key = rw (long c p, strip_star_suffix-append (c ∷ p)) refl

before-star :
    (s key : Text)
    → s ≢ []
    → strip_star_suffix s ≡ none
    → matches_pattern key (b'*' ∷ s) ≡ ends_with s key
unfolding matches_pattern strip_star_suffix strip_star_prefix text_eq
before-star [] key h e = absurd (h refl)
before-star (c ∷ s) key h e = rw e refl

exact-eq :
    (t key : Text)
    → strip_star_prefix t ≡ none
    → strip_star_suffix t ≡ none
    → matches_pattern key t ≡ text_eq key t
unfolding matches_pattern
exact-eq t key h e = elim (Bool-cases (text_eq t (codes "*"))) [
  | inl g ↦ absurd (no_star t h ((text_eq_iff t (codes "*")).0 g))
  | inr g ↦ rw (g, e, h) refl
]

-- A pattern that ends in a star matches the keys that begin with what stands before it; one that only
-- begins with a star, those that end with what stands behind it; any other, itself alone.
pub matches_pattern_iff :
    (p : Pattern) (key : Text)
    → IsPattern p
    → (matches_pattern key (spell p) ≡ true) ↔ Matches p key
matches_pattern_iff (behind p) key h =
    rw (behind-star p key) (starts_with→append p key, λ (r, e). rw e (starts_with-append p r))
matches_pattern_iff (before s) key h =
    rw (before-star s key h.0 h.1) (ends_with→append s key, λ (r, e). rw e (ends_with-append s r))
matches_pattern_iff (exact t) key h = rw (exact-eq t key h.0 h.1) (text_eq_iff key t)

-- ===== src/Text/Lines.antt =====
-- Lines that end in a carriage return and a line feed: what `trim` leaves of them, and that they are
-- UTF-8 where the text in front is.
use ussl.Prelude.{
  ℕ, zero, suc, ◌≤◌, ◌<◌, ◌≡◌, refl, ap, ◌∙◌, Bool, true, ◌&&◌, [], ◌∷◌, ◌++◌, leb, arith, All, all,
  append_assoc,
}
use ussl.Text.{Text}
use ussl.Text.Space.{space_length, skip_space, trim_end, trim, is_empty}
use ussl.Text.Utf8.{Pending, idle, begun, next_byte, lossy_from, from_utf8_lossy}

space_length-crlf :
    (c : ℕ) (s : Text) → space_length (c ∷ (s ++ 13 ∷ 10 ∷ [])) ≡ space_length (c ∷ s)
unfolding space_length
space_length-crlf c [] = ground arith
space_length-crlf c (d ∷ []) = ground arith
space_length-crlf c (d ∷ e ∷ s) = refl

empty_crlf : (n : ℕ) → is_empty (skip_space n (13 ∷ 10 ∷ [])) ≡ true
unfolding skip_space space_length
empty_crlf zero = refl
empty_crlf (suc zero) = refl
empty_crlf (suc (suc n)) = refl

is_empty-crlf :
    (n : ℕ) (s : Text) → is_empty (skip_space n (s ++ 13 ∷ 10 ∷ [])) ≡ is_empty (skip_space n s)
unfolding skip_space
is_empty-crlf n [] = empty_crlf n
is_empty-crlf (suc n) (c ∷ s) = is_empty-crlf n s
is_empty-crlf zero (c ∷ s) =
    let rest = λ (k : ℕ). is_empty-crlf k s in
    rw (space_length-crlf c s, skip_space) (cases (space_length (c ∷ s)) c s rest)
  where
    cases :
        (n c : ℕ) (s : Text)
        → ((k : ℕ) → is_empty (skip_space k (s ++ 13 ∷ 10 ∷ [])) ≡ is_empty (skip_space k s))
        → is_empty (elim n as (λ k. Text) [
          | zero ↦ c ∷ (s ++ 13 ∷ 10 ∷ [])
          | suc k ↦ skip_space k (s ++ 13 ∷ 10 ∷ [])
        ])
          ≡ is_empty (elim n as (λ k. Text) [ zero ↦ c ∷ s | suc k ↦ skip_space k s ])
    cases zero c s rest = refl
    cases (suc k) c s rest = rest k

trim_end-crlf : (s : Text) → trim_end (s ++ 13 ∷ 10 ∷ []) ≡ trim_end s
unfolding trim_end
trim_end-crlf [] = unfold skip_space space_length in refl
trim_end-crlf (c ∷ s) = rw (is_empty-crlf zero (c ∷ s), trim_end-crlf s) refl

-- a byte of ASCII that is no space
abbrev pub is_graphic : ℕ → Bool
is_graphic c = leb 33 c && leb c 126

space_length_graphic : (c : ℕ) (s : Text) → is_graphic c ≡ true → space_length (c ∷ s) ≡ 0
unfolding space_length
space_length_graphic c [] h = ground arith
space_length_graphic c (d ∷ []) h = ground arith
space_length_graphic c (d ∷ e ∷ s) h = ground arith

skip_space_graphic : (c : ℕ) (s : Text) → is_graphic c ≡ true → skip_space zero (c ∷ s) ≡ c ∷ s
unfolding skip_space
skip_space_graphic c s h = rw (skip_space, space_length_graphic c s h) refl

trim_end_graphic : (s : Text) → all is_graphic s ≡ true → trim_end s ≡ s
unfolding trim_end
trim_end_graphic [] h = refl
trim_end_graphic (c ∷ s) h =
    let rest = trim_end_graphic s (ground arith) in
    let whole = skip_space_graphic c s (ground arith) in rw (whole, rest) refl

trim_end_skip-crlf :
    (n : ℕ) (s : Text) → trim_end (skip_space n (s ++ 13 ∷ 10 ∷ [])) ≡ trim_end (skip_space n s)
unfolding skip_space
trim_end_skip-crlf zero [] = unfold space_length in refl
trim_end_skip-crlf (suc zero) [] = unfold space_length in refl
trim_end_skip-crlf (suc (suc n)) [] = refl
trim_end_skip-crlf (suc n) (c ∷ s) = trim_end_skip-crlf n s
trim_end_skip-crlf zero (c ∷ s) =
    let rest = λ (k : ℕ). trim_end_skip-crlf k s in
    rw (space_length-crlf c s, skip_space) (cases (space_length (c ∷ s)) c s rest)
  where
    cases :
        (n c : ℕ) (s : Text)
        → ((k : ℕ) → trim_end (skip_space k (s ++ 13 ∷ 10 ∷ [])) ≡ trim_end (skip_space k s))
        → trim_end (elim n as (λ k. Text) [
          | zero ↦ c ∷ (s ++ 13 ∷ 10 ∷ [])
          | suc k ↦ skip_space k (s ++ 13 ∷ 10 ∷ [])
        ])
          ≡ trim_end (elim n as (λ k. Text) [ zero ↦ c ∷ s | suc k ↦ skip_space k s ])
    cases zero c s rest = trim_end-crlf (c ∷ s)
    cases (suc k) c s rest = rest k

pub trim-crlf : (s : Text) → trim (s ++ 13 ∷ 10 ∷ []) ≡ trim s
unfolding trim
trim-crlf s = trim_end_skip-crlf zero s

pub trim_graphic : (s : Text) → all is_graphic s ≡ true → trim s ≡ s
unfolding trim skip_space
trim_graphic [] h = trim_end_graphic [] h
trim_graphic (c ∷ s) h =
    let whole = skip_space_graphic c s (ground arith) in rw whole (trim_end_graphic (c ∷ s) h)

-- A byte that is no white space stays at the front.
pub trim_end_front : (c : ℕ) (s : Text) → is_graphic c ≡ true → trim_end (c ∷ s) ≡ c ∷ trim_end s
unfolding trim_end
trim_end_front c s h = rw (trim_end, skip_space_graphic c s h) refl

pub trim_front : (c : ℕ) (s : Text) → is_graphic c ≡ true → trim (c ∷ s) ≡ c ∷ trim_end s
unfolding trim
trim_front c s h = rw (skip_space_graphic c s h) (trim_end_front c s h)

abbrev pub IsUtf8 : Text → Type 0
IsUtf8 s = from_utf8_lossy s ≡ s

abbrev IsPending : Pending → Type 0
IsPending idle = Unit
IsPending (begun read lo hi n) = 0x80 ≤ lo

next_byte-IsPending : (p : Pending) (c : ℕ) → IsPending p → IsPending (next_byte p c).1
next_byte-IsPending idle c h = ground arith
next_byte-IsPending (begun read lo hi zero) c h = ground arith
next_byte-IsPending (begun read lo hi (suc n)) c h = ground arith

lossy_from-crlf :
    (p : Pending) (s : Text)
    → IsPending p
    → lossy_from p (s ++ 13 ∷ 10 ∷ []) ≡ lossy_from p s ++ 13 ∷ 10 ∷ []
unfolding lossy_from
lossy_from-crlf idle [] h = refl
lossy_from-crlf (begun read lo hi n) [] h = ground arith
lossy_from-crlf p (c ∷ s) h =
    rw
      (
        lossy_from-crlf (next_byte p c).1 s (next_byte-IsPending p c h),
        append_assoc (next_byte p c).0 (lossy_from (next_byte p c).1 s) (13 ∷ 10 ∷ []),
      )
      refl

pub IsUtf8-crlf : (s : Text) → IsUtf8 s → IsUtf8 (s ++ 13 ∷ 10 ∷ [])
unfolding from_utf8_lossy
IsUtf8-crlf s h = lossy_from-crlf idle s tt ∙ ap (λ t. t ++ 13 ∷ 10 ∷ []) h

pub IsUtf8-append : (a s : Text) → All (λ c. c < 0x80) a → IsUtf8 s → IsUtf8 (a ++ s)
unfolding from_utf8_lossy lossy_from
IsUtf8-append [] s h u = u
IsUtf8-append (c ∷ a) s h u = let rest = IsUtf8-append a s h.1 u in let small = h.0 in ground arith

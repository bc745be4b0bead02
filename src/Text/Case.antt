-- ===== src/Text/Case.antt =====
-- `str::to_uppercase` as far as the names of commands need it: ASCII, and the letters whose upper
-- case is ASCII. The upper case of any other letter is a letter past ASCII, and stands in no name; it
-- stays as it is here.
use ussl.Prelude.{
  ℕ, zero, suc, ◌-◌, ◌≡◌, refl, ◌&&◌, ◌||◌, [], ◌∷◌, ◌++◌, Option, none, some, leb, ◌==◌,
  if◌then◌else◌,
}
use ussl.Text.{Text, codes}

abbrev upper_byte : ℕ → ℕ
upper_byte c = if leb b'a' c && leb c b'z' then c - 32 else c

-- U+FB00 to U+FB06
abbrev upper_ligature : ℕ → Option Text
upper_ligature e =
    if e == 0x80
    then some (codes "FF")
    else if e == 0x81
    then some (codes "FI")
    else if e == 0x82
    then some (codes "FL")
    else if e == 0x83
    then some (codes "FFI")
    else if e == 0x84
    then some (codes "FFL")
    else if e == 0x85 || e == 0x86
    then some (codes "ST")
    else none

abbrev third : ℕ → ℕ → Text → Option Text
third c d [] = none
third c d (e ∷ s) = if c == 0xEF && d == 0xAC then upper_ligature e else none

-- U+0131, U+017F and U+00DF
abbrev upper_pair : ℕ → ℕ → Option Text
upper_pair c d =
    if c == 0xC4 && d == 0xB1
    then some (codes "I")
    else if c == 0xC5 && d == 0xBF
    then some (codes "S")
    else if c == 0xC3 && d == 0x9F
    then some (codes "SS")
    else none

-- the upper case of a character of several bytes, and how many bytes it has behind the first
abbrev upper_wide : ℕ → Text → Option (Text × ℕ)
upper_wide c [] = none
upper_wide c (d ∷ s) = elim (upper_pair c d) [
  | some t ↦ some (t, 1)
  | none ↦ elim (third c d s) [ none ↦ none | some t ↦ some (t, 2) ]
]

-- the upper case of what follows so many bytes
unfoldable pub upper_from : ℕ → Text → Text
upper_from n [] = []
upper_from (suc n) (c ∷ s) = upper_from n s
upper_from zero (c ∷ s) = elim (upper_wide c s) [
  | none ↦ upper_byte c ∷ upper_from zero s
  | some (t, n) ↦ t ++ upper_from n s
]

unfoldable pub to_uppercase : Text → Text
to_uppercase s = upper_from zero s

raised : to_uppercase (b'r' ∷ b'e' ∷ 0xEF ∷ 0xAC ∷ 0x85 ∷ b'P' ∷ 0xC4 ∷ 0xB1 ∷ []) ≡ codes "RESTPI"
unfolding to_uppercase upper_from
raised = refl

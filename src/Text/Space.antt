-- ===== src/Text/Space.antt =====
-- `str::trim`: the characters that Unicode counts as white space, in UTF-8.
use ussl.Prelude.{
  ℕ, zero, suc, ◌≡◌, refl, Bool, true, false, ◌&&◌, ◌||◌, [], ◌∷◌, leb, ◌==◌, if◌then◌else◌,
}
use ussl.Text.{Text}

abbrev pub is_ascii_space : ℕ → Bool
is_ascii_space c = (leb 9 c && leb c 13) || c == b' '

-- the last byte of U+2000 to U+200A, U+2028, U+2029 and U+202F
abbrev ends_wide_space : ℕ → Bool
ends_wide_space e = (leb 0x80 e && leb e 0x8A) || e == 0xA8 || e == 0xA9 || e == 0xAF

abbrev is_wide_space : ℕ → ℕ → ℕ → Bool
is_wide_space c d e =
    (c == 0xE1 && d == 0x9A && e == 0x80)
    || (c == 0xE2 && d == 0x80 && ends_wide_space e)
    || (c == 0xE2 && d == 0x81 && e == 0x9F)
    || (c == 0xE3 && d == 0x80 && e == 0x80)

abbrev third : ℕ → ℕ → Text → ℕ
third c d [] = 0
third c d (e ∷ s) = if is_wide_space c d e then 3 else 0

abbrev second : ℕ → Text → ℕ
second c [] = 0
second c (d ∷ s) = if c == 0xC2 && (d == 0x85 || d == 0xA0) then 2 else third c d s

-- The length of the white space character at the front, 0 where there is none.
unfoldable pub space_length : Text → ℕ
space_length [] = 0
space_length (c ∷ s) = if is_ascii_space c then 1 else second c s

-- What follows the white space behind so many bytes.
unfoldable pub skip_space : ℕ → Text → Text
skip_space n [] = []
skip_space (suc n) (c ∷ s) = skip_space n s
skip_space zero (c ∷ s) = elim (space_length (c ∷ s)) [ zero ↦ c ∷ s | suc n ↦ skip_space n s ]

abbrev pub is_empty : Text → Bool
is_empty [] = true
is_empty (c ∷ s) = false

unfoldable pub trim_end : Text → Text
trim_end [] = []
trim_end (c ∷ s) =
    let rest = trim_end s in if is_empty (skip_space zero (c ∷ s)) then [] else c ∷ rest

-- `str::trim`
unfoldable pub trim : Text → Text
trim s = trim_end (skip_space zero s)

trimmed :
    trim (b' ' ∷ 0xC2 ∷ 0xA0 ∷ b'a' ∷ b' ' ∷ b'b' ∷ 0xE2 ∷ 0x80 ∷ 0x83 ∷ 13 ∷ [])
    ≡ b'a' ∷ b' ' ∷ b'b' ∷ []
unfolding trim trim_end skip_space space_length
trimmed = refl

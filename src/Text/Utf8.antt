-- ===== src/Text/Utf8.antt =====
-- `String::from_utf8_lossy`: bytes that are no UTF-8 give U+FFFD, once for each longest beginning of
-- a character.
use ussl.Prelude.{
  ℕ, zero, suc, ◌<◌, ◌≡◌, refl, ◌&&◌, [], ◌∷◌, ◌++◌, ltb, leb, ◌==◌, arith, if◌then◌else◌, All,
}
use ussl.Text.{Text}

-- The bytes of a character that has begun, the range of the next byte, and how many bytes follow
-- that one.
pub data Pending : Type 0 where
  idle : Pending
  begun : Text → ℕ → ℕ → ℕ → Pending

abbrev pub replacement : Text
replacement = 0xEF ∷ 0xBF ∷ 0xBD ∷ []

-- the first byte of a character
abbrev pub first_byte : ℕ → Text × Pending
first_byte c =
    if ltb c 0x80
    then (c ∷ [], idle)
    else if leb 0xC2 c && leb c 0xDF
    then ([], begun (c ∷ []) 0x80 0xBF 0)
    else if c == 0xE0
    then ([], begun (c ∷ []) 0xA0 0xBF 1)
    else if c == 0xED
    then ([], begun (c ∷ []) 0x80 0x9F 1)
    else if leb 0xE1 c && leb c 0xEF
    then ([], begun (c ∷ []) 0x80 0xBF 1)
    else if c == 0xF0
    then ([], begun (c ∷ []) 0x90 0xBF 2)
    else if leb 0xF1 c && leb c 0xF3
    then ([], begun (c ∷ []) 0x80 0xBF 2)
    else if c == 0xF4
    then ([], begun (c ∷ []) 0x80 0x8F 2)
    else (replacement, idle)

-- a byte that fits the range
abbrev pub further : Text → ℕ → ℕ → Text × Pending
further read c zero = (read ++ (c ∷ []), idle)
further read c (suc n) = ([], begun (read ++ (c ∷ [])) 0x80 0xBF n)

abbrev pub after_replacement : Text × Pending → Text × Pending
after_replacement (t, p) = (replacement ++ t, p)

abbrev pub next_byte : Pending → ℕ → Text × Pending
next_byte idle c = first_byte c
next_byte (begun read lo hi n) c =
    if leb lo c && leb c hi then further read c n else after_replacement (first_byte c)

abbrev pub left_over : Pending → Text
left_over idle = []
left_over (begun read lo hi n) = replacement

unfoldable pub lossy_from : Pending → Text → Text
lossy_from p [] = left_over p
lossy_from p (c ∷ s) = let (t, p') = next_byte p c in t ++ lossy_from p' s

unfoldable pub from_utf8_lossy : Text → Text
from_utf8_lossy s = lossy_from idle s

-- Bytes of ASCII stay.
pub from_utf8_lossy_ascii : (s : Text) → All (λ c. c < 0x80) s → from_utf8_lossy s ≡ s
unfolding from_utf8_lossy lossy_from
from_utf8_lossy_ascii [] h = refl
from_utf8_lossy_ascii (c ∷ s) h =
    let rest = from_utf8_lossy_ascii s h.1 in let small = h.0 in ground arith

replaced :
    from_utf8_lossy (b'a' ∷ 0xE2 ∷ 0x82 ∷ b'b' ∷ 0xFF ∷ 0xC3 ∷ 0xA9 ∷ 0xF0 ∷ [])
    ≡ b'a' ∷ 0xEF ∷ 0xBF ∷ 0xBD ∷ b'b' ∷ 0xEF ∷ 0xBF ∷ 0xBD ∷ 0xC3 ∷ 0xA9 ∷ 0xEF ∷ 0xBF ∷ 0xBD ∷ []
unfolding from_utf8_lossy lossy_from
replaced = refl

-- ===== src/Protocol/Response/Base64.antt =====
-- `base64_encode` of crates/ussl-protocol/src/response.rs, and a reader of base64.
use ussl.Prelude.{
  ℕ, zero, suc, ◌+◌, ◌-◌, ◌*◌, ◌/◌, ◌%◌, ◌<◌, ◌≡◌, refl, ap, Bool, true, false, ◌&&◌, [], ◌∷◌,
  Option, none, some, leb, ◌==◌, arith, if◌then◌else◌, All, Bool-cases, ==_iff, inl, inr,
}
use ussl.Text.{Text, codes}

abbrev pub alphabet : Text
alphabet = codes "ABCDEFGHIJKLMNOPQRSTUVWXYZabcdefghijklmnopqrstuvwxyz0123456789+/"

abbrev pub nth : ℕ → Text → ℕ
nth i [] = 0
nth zero (c ∷ s) = c
nth (suc i) (c ∷ s) = nth i s

-- `ALPHABET[i]`; the indices below are under 64
unfoldable pub symbol : ℕ → ℕ
symbol i = nth i alphabet

-- The masks and shifts of a byte as remainders and quotients: `b & 0x03 << 4` is `b % 4 * 16`.
unfoldable pub base64_encode : Text → Text
base64_encode [] = []
base64_encode (b0 ∷ []) = symbol (b0 / 4) ∷ symbol (b0 % 4 * 16 + 0 / 16) ∷ b'=' ∷ b'=' ∷ []
base64_encode (b0 ∷ b1 ∷ []) =
    symbol (b0 / 4) ∷ symbol (b0 % 4 * 16 + b1 / 16) ∷ symbol (b1 % 16 * 4 + 0 / 64) ∷ b'=' ∷ []
base64_encode (b0 ∷ b1 ∷ b2 ∷ bytes) =
    symbol (b0 / 4)
    ∷ symbol (b0 % 4 * 16 + b1 / 16)
    ∷ symbol (b1 % 16 * 4 + b2 / 64)
    ∷ symbol (b2 % 64)
    ∷ base64_encode bytes

-- The value of a symbol, as RFC 4648 has it.
unfoldable pub symbol_value : ℕ → Option ℕ
symbol_value c =
    if leb b'A' c && leb c b'Z'
    then some (c - b'A')
    else if leb b'a' c && leb c b'z'
    then some (c - b'a' + 26)
    else if leb b'0' c && leb c b'9'
    then some (c - b'0' + 52)
    else if c == b'+'
    then some 62
    else if c == b'/'
    then some 63
    else none

-- The bytes of four symbols, given their values: the last symbols `s2` and `s3` may be padding.
abbrev group : ℕ → ℕ → Option ℕ → Option ℕ → Option ℕ → Option ℕ → Option Text → Option Text
group s2 s3 (some v0) (some v1) (some v2) (some v3) (some bytes) =
    some ((v0 * 4 + v1 / 16) ∷ (v1 % 16 * 16 + v2 / 4) ∷ (v2 % 4 * 64 + v3) ∷ bytes)
group s2 s3 (some v0) (some v1) (some v2) none (some []) =
    if s3 == b'=' then some ((v0 * 4 + v1 / 16) ∷ (v1 % 16 * 16 + v2 / 4) ∷ []) else none
group s2 s3 (some v0) (some v1) none v3 (some []) =
    if s2 == b'=' && s3 == b'=' then some ((v0 * 4 + v1 / 16) ∷ []) else none
group s2 s3 _ _ _ _ _ = none

unfoldable pub base64_decode : Text → Option Text
base64_decode [] = some []
base64_decode (s0 ∷ s1 ∷ s2 ∷ s3 ∷ s) =
    group s2 s3 (symbol_value s0) (symbol_value s1) (symbol_value s2) (symbol_value s3)
      (base64_decode s)
base64_decode _ = none

below : (p : ℕ → Bool) (n : ℕ) → Bool
below p zero = true
below p (suc n) = p n && below p n

read_back : ℕ → Bool
read_back n = elim (symbol_value (symbol n)) [ none ↦ false | some m ↦ m == n ]

all_read_back : below read_back 64 ≡ true
unfolding symbol symbol_value below read_back
all_read_back = refl

below-holds : (p : ℕ → Bool) (n i : ℕ) → below p n ≡ true → i < n → p i ≡ true
unfolding below
below-holds p zero i h l = ground arith
below-holds p (suc n) i h l =
    let rest = below-holds p n i in
    elim (Bool-cases (i == n)) [
      | inl e ↦ rw ((==_iff i n).0 e) (ground arith)
      | inr e ↦ ground arith
    ]

symbol_value-symbol : (n : ℕ) → n < 64 → symbol_value (symbol n) ≡ some n
unfolding read_back
symbol_value-symbol n h = let r = below-holds read_back 64 n all_read_back h in ground arith

bytes2 :
    {a b c d : ℕ} → a ≡ c → b ≡ d → ◌≡◌ {A = Option Text} (some (a ∷ b ∷ [])) (some (c ∷ d ∷ []))
bytes2 e f = cc

bytes3 :
    {a b c x y z : ℕ} {s : Text}
    → a ≡ x
    → b ≡ y
    → c ≡ z
    → ◌≡◌ {A = Option Text} (some (a ∷ b ∷ c ∷ s)) (some (x ∷ y ∷ z ∷ s))
bytes3 e f g = cc

padding : symbol_value b'=' ≡ none
unfolding symbol_value
padding = refl

-- Base64 of any bytes is read back as those bytes.
pub base64_decode-base64_encode :
    (bytes : Text) → All (λ b. b < 256) bytes → base64_decode (base64_encode bytes) ≡ some bytes
unfolding base64_encode base64_decode
base64_decode-base64_encode [] h = refl
base64_decode-base64_encode (b0 ∷ []) h =
    rw
      (
        symbol_value-symbol (b0 / 4) (let a = h.0 in omega arith),
        symbol_value-symbol (b0 % 4 * 16 + 0 / 16) (omega arith),
        padding,
      )
      (ap (λ b. some (b ∷ [])) (let a = h.0 in omega arith))
base64_decode-base64_encode (b0 ∷ b1 ∷ []) h =
    rw
      (
        symbol_value-symbol (b0 / 4) (let a = h.0 in omega arith),
        symbol_value-symbol (b0 % 4 * 16 + b1 / 16) (let a = h.1.0 in omega arith),
        symbol_value-symbol (b1 % 16 * 4 + 0 / 64) (omega arith),
        padding,
      )
      (bytes2 (let a = h.0 in let b = h.1.0 in omega arith) (let b = h.1.0 in omega arith))
base64_decode-base64_encode (b0 ∷ b1 ∷ b2 ∷ bytes) h =
    rw
      (
        symbol_value-symbol (b0 / 4) (let a = h.0 in omega arith),
        symbol_value-symbol (b0 % 4 * 16 + b1 / 16) (let a = h.1.0 in omega arith),
        symbol_value-symbol (b1 % 16 * 4 + b2 / 64) (let a = h.1.1.0 in omega arith),
        symbol_value-symbol (b2 % 64) (omega arith),
        base64_decode-base64_encode bytes h.1.1.1,
      )
      (bytes3 (let a = h.0 in let b = h.1.0 in omega arith)
        (let b = h.1.0 in let c = h.1.1.0 in omega arith) (omega arith))

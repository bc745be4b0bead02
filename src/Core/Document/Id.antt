-- ===== src/Core/Document/Id.antt =====
-- crates/ussl-core/src/document.rs: `DocumentId`, a text that `new` has let through.
use ussl.Prelude.{
  ℕ, ◌≤◌, ◌≡◌, ◌≢◌, ◌↔◌, refl, ◌⊎◌, All, Bool, true, not, ◌&&◌, ◌||◌, [], ◌∷◌, arith, ltb, leb,
  ◌==◌, length, all, if◌then◌else◌,
}
use ussl.Text.{Text, codes}
use ussl.Core.Error.{Result, ok, err, invalid_document_id}

-- `is_ascii_alphanumeric`, on bytes: the bytes of any other character are past 127
unfoldable pub is_alphanumeric : ℕ → Bool
is_alphanumeric c =
    (leb b'0' c && leb c b'9') || (leb b'A' c && leb c b'Z') || (leb b'a' c && leb c b'z')

unfoldable pub is_id_byte : ℕ → Bool
unfolding is_alphanumeric
is_id_byte c = is_alphanumeric c || c == b':' || c == b'_' || c == b'-'

-- `DocumentId::new`
unfoldable pub new_id : Text → Result Text
new_id [] = err (invalid_document_id (codes "Document ID cannot be empty"))
new_id (c ∷ s) =
    let id = c ∷ s in
    if ltb 512 (length id)
    then err (invalid_document_id (codes "Document ID exceeds 512 bytes"))
    else if not (all is_id_byte id)
    then err (invalid_document_id (codes "Document ID must match pattern [a-zA-Z0-9:_-]+"))
    else ok id

-- A letter, a digit, or one of `:_-`.
abbrev pub IsAllowed : ℕ → Type 0
IsAllowed c =
    (b'A' ≤ c × c ≤ b'Z')
    ⊎ (b'a' ≤ c × c ≤ b'z')
    ⊎ (b'0' ≤ c × c ≤ b'9')
    ⊎ (c ≡ b':')
    ⊎ (c ≡ b'_')
    ⊎ (c ≡ b'-')

is_id_byte_iff : (c : ℕ) → (is_id_byte c ≡ true) ↔ IsAllowed c
unfolding is_id_byte is_alphanumeric
is_id_byte_iff c = (λ h. ground arith, λ h. ground arith)

all-is_id_byte_iff : (s : Text) → (all is_id_byte s ≡ true) ↔ All IsAllowed s
all-is_id_byte_iff [] = (λ h. tt, λ h. refl)
all-is_id_byte_iff (c ∷ s) =
    let here = is_id_byte_iff c in
    let there = all-is_id_byte_iff s in
    (
      λ h. (here.0 (ground arith), there.0 (ground arith)),
      λ (x, xs). let a = here.1 x in let b = there.1 xs in rw (a, b) refl,
    )

-- One to 512 bytes, all of them letters, digits or one of `:_-`.
pub record IsDocumentId (s : Text) : Type 0 where
  pub filled : s ≢ []
  pub short : length s ≤ 512
  pub allowed : All IsAllowed s

-- `DocumentId::new` lets exactly the texts of this form through, and changes none of them.
pub new_id_iff : (s id : Text) → (new_id s ≡ ok id) ↔ (IsDocumentId s × (s ≡ id))
unfolding new_id
new_id_iff [] id = (λ h. cc, λ h. absurd (h.0.filled refl))
new_id_iff (c ∷ s) id =
    let bytes = all-is_id_byte_iff (c ∷ s) in
    (
      λ h. (
        record { filled = λ e. cc; short = ground arith; allowed = bytes.0 (ground arith) },
        ground arith,
      ),
      λ (v, e). let short = v.short in let allowed = bytes.1 v.allowed in ground arith,
    )

-- ===== src/Protocol/Response/Frame.antt =====
-- crates/ussl-protocol/src/response.rs: a response of bytes is read back, whatever the bytes are.
use ussl.Prelude.{
  ℕ, ◌^◌, ◌<◌, ◌≡◌, refl, ap, [], ◌∷◌, ◌++◌, Option, none, some, length, take, drop, append_assoc,
  drop-length-append,
}
use ussl.Text.{Text, codes, strip_prefix}
use ussl.Core.Value.{Value}
use ussl.Protocol.Response.{bulk, value, crlf, put_bulk, put, encode, encode_into, or_null}
use ussl.Protocol.Response.Decimal.{show, read_length, read_length-show}

-- A client's reader of `$<length>\r\n<data>\r\n`: the bytes and what follows them.
abbrev read_payload : Option (ℕ × Text) → Option (Text × Text)
read_payload none = none
read_payload (some (n, s)) = elim (strip_prefix crlf (drop n s)) [
  | none ↦ none
  | some rest ↦ some (take n s, rest)
]

unfoldable pub read_bulk : Text → Option (Text × Text)
read_bulk s = elim (strip_prefix (codes "$") s) [
  | none ↦ none
  | some t ↦ read_payload (read_length 0 t)
]

take-length-append : (xs ys : Text) → take (length xs) (xs ++ ys) ≡ xs
take-length-append [] ys = refl
take-length-append (x ∷ xs) ys = ap (λ s. x ∷ s) (take-length-append xs ys)

pub regroup :
    (digits bytes rest : Text)
    → digits ++ crlf ++ bytes ++ crlf ++ rest ≡ digits ++ 13 ∷ 10 ∷ (bytes ++ (crlf ++ rest))
regroup digits bytes rest =
    rw
      (
        append_assoc (digits ++ crlf ++ bytes) crlf rest,
        append_assoc (digits ++ crlf) bytes (crlf ++ rest),
        append_assoc digits crlf (bytes ++ (crlf ++ rest)),
      )
      refl

read_bulk-put_bulk :
    (bytes rest : Text)
    → length bytes < 2 ^ 64
    → read_bulk (put_bulk bytes ++ rest) ≡ some (bytes, rest)
unfolding read_bulk put_bulk strip_prefix
read_bulk-put_bulk bytes rest h =
    rw
      (
        regroup (show (length bytes)) bytes rest,
        read_length-show (length bytes) (bytes ++ (crlf ++ rest)) h,
        read_payload,
        drop-length-append bytes (crlf ++ rest),
        take-length-append bytes (crlf ++ rest),
      )
      refl

module _ {F : Type 0} (to_json : Value F → Option Text) where
  -- A response of bytes, whatever bytes, and a response of a value, of a length below 2^64, are read
  -- back as those bytes and
  -- as the JSON of the value, and the reader stands at the next response.
  pub read_bulk-encode :
      (bytes : Text) (v : Value F) (rest : Text)
      → length bytes < 2 ^ 64
      → length (or_null (to_json v)) < 2 ^ 64
      → (read_bulk (encode to_json (bulk bytes) ++ rest) ≡ some (bytes, rest))
        × (read_bulk (encode to_json (value v) ++ rest) ≡ some (or_null (to_json v), rest))
  unfolding encode encode_into put
  read_bulk-encode bytes v rest h k =
      (read_bulk-put_bulk bytes rest h, read_bulk-put_bulk (or_null (to_json v)) rest k)

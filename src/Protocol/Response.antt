-- ===== src/Protocol/Response.antt =====
-- crates/ussl-protocol/src/response.rs: the responses and their encoding as bytes.
-- `serde_json::to_string` on a value is the parameter `to_json`.
pub mod Decimal
pub mod Base64
pub mod Bytes
pub mod Frame
use ussl.Prelude.{ℕ, zero, suc, ◌+◌, List, [], ◌∷◌, ◌++◌, Option, none, some, length}
use ussl.Prelude.Int.{ℤ}
use ussl.Text.{Text, codes}
use ussl.Core.Value.{Value}
use ussl.Protocol.Response.Decimal.{show, show_int}
use ussl.Protocol.Response.Base64.{base64_encode}

mutual
  pub data Response (F : Type 0) : Type 0 where
    ok : Option Text → Response F
    error : Text → Text → Response F
    bulk : Text → Response F
    array : Responses F → Response F
    delta : ℕ → Text → Response F
    integer : ℤ → Response F
    value : Value F → Response F
    null : Response F
    pong : Response F

  pub data Responses (F : Type 0) : Type 0 where
    nil : Responses F
    cons : Response F → Responses F → Responses F

module _ {F : Type 0} where
  abbrev pub not_found : Text → Response F
  not_found id = error (codes "NOT_FOUND") (codes "Document not found: " ++ id)

  abbrev pub invalid_command : Text → Response F
  invalid_command msg = error (codes "INVALID_CMD") msg

  abbrev pub count : Responses F → ℕ
  count nil = 0
  count (cons r rs) = suc (count rs)

abbrev pub crlf : Text
crlf = 13 ∷ 10 ∷ []

-- a dollar sign, the length, and the bytes
unfoldable pub put_bulk : Text → Text
put_bulk bytes = codes "$" ++ show (length bytes) ++ crlf ++ bytes ++ crlf

-- `unwrap_or_else(|_| "null".to_string())`
abbrev pub or_null : Option Text → Text
or_null none = codes "null"
or_null (some json) = json

module _ {F : Type 0} (to_json : Value F → Option Text) where
  -- What `encode_into` appends to its buffer.
  unfoldable mutual
    pub put : Response F → Text
    put (ok none) = codes "+OK" ++ crlf
    put (ok (some msg)) = codes "+OK " ++ msg ++ crlf
    put (error code message) = codes "-ERR " ++ code ++ codes " " ++ message ++ crlf
    put (bulk bytes) = put_bulk bytes
    put (array items) = codes "*" ++ show (count items) ++ crlf ++ put_items items
    put (delta version bytes) =
        codes "#" ++ show version ++ codes " " ++ base64_encode bytes ++ crlf
    put (integer n) = codes ":" ++ show_int n ++ crlf
    put (value v) = put_bulk (or_null (to_json v))
    put null = codes "$-1" ++ crlf
    put pong = codes "+PONG" ++ crlf

    pub put_items : Responses F → Text
    put_items nil = []
    put_items (cons r rs) = put r ++ put_items rs

  unfoldable pub encode_into : Response F → Text → Text
  encode_into r buf = buf ++ put r

  unfoldable pub encode : Response F → Text
  encode r = encode_into r []

-- ===== src/Client/Answers.antt =====
-- crates/ussl-cli/src/main.rs and crates/ussl-protocol/src/response.rs: the client shows what the server
-- has answered.
use ussl.Prelude.{
  ℕ, ◌<◌, ◌≡◌, refl, sym, ◌∙◌, subst, Bool, ◌+◌, true, List, [], ◌∷◌, ◌++◌, Option, none, some, all,
  length, arith, append_assoc,
}
use ussl.Text.{Text, codes, starts_with, text_eq}
use ussl.Text.Space.{trim, trim_end, skip_space, space_length}
use ussl.Core.Value.{Value}
use ussl.Protocol.Parser.Framing.{in_line}
use ussl.Protocol.Response.{Response, crlf, put, put_bulk, encode, encode_into, or_null}
use ussl.Protocol.Response.Decimal.{show, show_int}
use ussl.Protocol.Response.Base64.{base64_encode}
use ussl.Protocol.Response.Bytes.{show-all, show_int-all, base64_encode-all}
use ussl.Protocol.Response.Frame.{regroup}
use ussl.Client.{
  Ending, Reader, Shown, shown_as, plain, green, red, yellow, blue, dimmed, display, read_answer,
  execute_command,
}
use ussl.Client.Lines.{joined, remaining}
use ussl.Client.Shows.{
  IsLine, Prints, read_answer-line, show_data-line, read_answer-Prints, display-ok, display-error,
  display-delta, display-integer, display-bulk, graphic_digit, is_ascii, ascii-IsUtf8, show-IsLine,
  show_int-IsLine, all-append, IsLine-append,
}

-- The bytes of a delta's line.
delta-all :
    (p : ℕ → Bool) (version : ℕ) (bytes : Text)
    → ((d : ℕ) → d < 10 → p (b'0' + d) ≡ true)
    → p b'#' ≡ true
    → p b' ' ≡ true
    → all p (base64_encode bytes) ≡ true
    → all p (codes "#" ++ show version ++ codes " " ++ base64_encode bytes) ≡ true
delta-all p version bytes digits sharp space symbols =
    all-append p (codes "#" ++ show version ++ codes " ") (base64_encode bytes)
      (all-append p (codes "#" ++ show version) (codes " ")
        (rw (sharp, show-all p digits version) refl) (rw space refl))
      symbols

delta-IsLine :
    (version : ℕ) (bytes : Text)
    → IsLine (codes "#" ++ show version ++ codes " " ++ base64_encode bytes)
delta-IsLine version bytes = (
  delta-all in_line version bytes (λ d h. ground arith) refl refl
      (base64_encode-all in_line refl refl refl bytes),
  ascii-IsUtf8 (codes "#" ++ show version ++ codes " " ++ base64_encode bytes) (
      delta-all is_ascii version bytes (λ d h. ground arith) refl refl
        (base64_encode-all is_ascii refl refl refl bytes)),
)

module _ {F : Type 0} (to_json : Value F → Option Text) where
  -- How a response is shown.
  abbrev pub displayed : Response F → Shown
  displayed (Response.ok none) = shown_as green (codes "+OK")
  displayed (Response.ok (some msg)) = shown_as green (trim (codes "+OK " ++ msg))
  displayed (Response.error code message) =
      shown_as red (trim (codes "-ERR " ++ code ++ codes " " ++ message))
  displayed (Response.bulk bytes) = shown_as plain (trim bytes)
  displayed (Response.array items) = shown_as plain []
  displayed (Response.delta version bytes) =
      shown_as blue
        (codes "Delta: " ++ trim (codes "#" ++ show version ++ codes " " ++ base64_encode bytes))
  displayed (Response.integer n) = shown_as yellow (show_int n)
  displayed (Response.value v) = shown_as plain (trim (or_null (to_json v)))
  displayed Response.null = shown_as dimmed (codes "(nil)")
  displayed Response.pong = shown_as green (codes "PONG")

  -- A response other than an array, of which each text is one line of UTF-8.
  abbrev pub IsOneLine : Response F → Type 0
  IsOneLine (Response.ok (some msg)) = IsLine msg
  IsOneLine (Response.error code message) = IsLine (code ++ codes " " ++ message)
  IsOneLine (Response.bulk bytes) = IsLine bytes
  IsOneLine (Response.value v) = IsLine (or_null (to_json v))
  IsOneLine (Response.array items) = ⊥
  IsOneLine _ = Unit

  -- a bulk string
  read_bulk-Prints :
      (r : Reader) (bytes later : Text)
      → remaining r ≡ put_bulk bytes ++ later
      → IsLine bytes
      → Prints (read_answer r) (shown_as plain (trim bytes)) later
  unfolding put_bulk
  read_bulk-Prints r bytes later h n =
      let len = show (length bytes) in
      let (r', e, left) =
        read_answer-line r (b'$' ∷ len) (bytes ++ (crlf ++ later))
          (h ∙ regroup (b'$' ∷ len) bytes later)
          (IsLine-append (codes "$") len refl (omega arith) (show-IsLine (length bytes))) in
      let second =
        e
        ∙ display-bulk len r' (show-all _ graphic_digit (length bytes))
            (show-all _ (λ d h. ground arith) (length bytes)) in
      subst (λ a. Prints a (shown_as plain (trim bytes)) later) (sym second)
        (show_data-line r' bytes later left n)

  read_answer-put :
      (x : Response F) (r : Reader) (later : Text)
      → remaining r ≡ put to_json x ++ later
      → IsOneLine x
      → Prints (read_answer r) (displayed x) later
  unfolding put
  read_answer-put (Response.ok none) r later h n =
      read_answer-Prints r (codes "+OK") later _ h (refl, ascii-IsUtf8 (codes "+OK") refl)
        (λ q. unfold display trim trim_end skip_space space_length starts_with in refl)
  read_answer-put (Response.ok (some msg)) r later h n =
      read_answer-Prints r (codes "+OK " ++ msg) later _
        (h ∙ append_assoc (codes "+OK " ++ msg) crlf later)
        (IsLine-append (codes "+OK ") msg refl (omega arith) n) (display-ok (b' ' ∷ msg))
  read_answer-put (Response.error code message) r later h n =
      let t = code ++ codes " " ++ message in
      read_answer-Prints r (codes "-ERR " ++ t) later _
        (h ∙ append_assoc (codes "-ERR " ++ t) crlf later)
        (IsLine-append (codes "-ERR ") t refl (omega arith) n) (display-error (b' ' ∷ t))
  read_answer-put (Response.array items) r later h n = elim n [ ]
  read_answer-put (Response.bulk bytes) r later h n = read_bulk-Prints r bytes later h n
  read_answer-put (Response.value v) r later h n =
      read_bulk-Prints r (or_null (to_json v)) later h n
  read_answer-put (Response.delta version bytes) r later h n =
      let head = codes "#" ++ show version ++ codes " " in
      let bytes' = base64_encode bytes in
      read_answer-Prints r (head ++ bytes') later _ (h ∙ append_assoc (head ++ bytes') crlf later)
        (delta-IsLine version bytes) (λ q. display-delta (show version ++ codes " " ++ bytes') q)
  read_answer-put (Response.integer n) r later h k =
      read_answer-Prints r (b':' ∷ show_int n) later _
        (h ∙ append_assoc (b':' ∷ show_int n) crlf later)
        (IsLine-append (codes ":") (show_int n) refl (omega arith) (show_int-IsLine n))
        (λ q. display-integer (show_int n) q (show_int-all _ graphic_digit refl n))
  read_answer-put Response.null r later h n =
      read_answer-Prints r (codes "$-1") later _ h (refl, ascii-IsUtf8 (codes "$-1") refl)
        (λ q. unfold display trim trim_end skip_space space_length starts_with text_eq in refl)
  read_answer-put Response.pong r later h n =
      read_answer-Prints r (codes "+PONG") later _ h (refl, ascii-IsUtf8 (codes "+PONG") refl)
        (λ q. unfold display trim trim_end skip_space space_length starts_with in refl)

  -- Bytes from the server that begin with a response, spread over reads in any way: the client shows the
  -- response in one line, and has read exactly its bytes. The response is no array, and its text
  -- is one line of UTF-8.
  pub execute_command-encode :
      (x : Response F) (reads : List Text) (ending : Ending) (later : Text)
      → joined reads ≡ encode to_json x ++ later
      → IsOneLine x
      → Prints (execute_command true reads ending) (displayed x) later
  unfolding execute_command encode encode_into
  execute_command-encode x reads ending later h n = read_answer-put x _ later h n

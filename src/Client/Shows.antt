-- ===== src/Client/Shows.antt =====
-- crates/ussl-cli/src/main.rs and crates/ussl-protocol/src/response.rs: what the client shows of a
-- response that the server has encoded.
use ussl.Prelude.{
  ℕ, ◌+◌, ◌<◌, ◌≡◌, Bool, ltb, not, false, ◌==◌, refl, ap, ◌∙◌, true, [], ◌∷◌, ◌++◌, all, All,
  arith,
}
use ussl.Prelude.Int.{ℤ}
use ussl.Text.{Text, codes, text_eq, starts_with}
use ussl.Text.Space.{trim}
use ussl.Text.Utf8.{from_utf8_lossy, lossy_from}
use ussl.Text.Lines.{
  IsUtf8, IsUtf8-append, is_graphic, trim-crlf, trim_graphic, trim_front, trim_end_front,
}
use ussl.Protocol.Parser.Framing.{in_line}
use ussl.Protocol.Response.Decimal.{show, show_int}
use ussl.Protocol.Response.Bytes.{show-all, show_int-all}
use ussl.Client.{
  Reader, Answer, Shown, shown_as, printed, plain, green, red, yellow, blue, show_data, display,
  read_answer, or_failed,
}
use ussl.Client.Lines.{remaining, read_line-crlf}

abbrev pub is_ascii : ℕ → Bool
is_ascii c = ltb c 0x80

-- text of one line
abbrev pub IsLine : Text → Type 0
IsLine s = (all in_line s ≡ true) × IsUtf8 s

-- An answer of one line without an error, with the bytes `more` behind what has been read.
abbrev pub Prints : Answer → Shown → Text → Type 0
Prints a s more = (a.shown ≡ s ∷ []) × (a.succeeded ≡ true) × (remaining a.reader ≡ more)

Prints-printed :
    (a : Answer) (s : Shown) (r : Reader) (more : Text)
    → a ≡ printed s r
    → remaining r ≡ more
    → Prints a s more
Prints-printed a s r more e left = rw e (refl, refl, left)

-- The first line of an answer, and the second one of a bulk string.
pub read_answer-line :
    (r : Reader) (l more : Text)
    → remaining r ≡ l ++ 13 ∷ 10 ∷ more
    → IsLine l
    → (r' : Reader) × (read_answer r ≡ display (trim l) r') × (remaining r' ≡ more)
unfolding read_answer
read_answer-line r l more h (n, u) =
    let (r', e, left, end) = read_line-crlf r l more h n u in
    (r', ap (or_failed (λ s q. display (trim s) q)) e ∙ ap (λ s. display s r') (trim-crlf l), left)

pub show_data-line :
    (r : Reader) (l more : Text)
    → remaining r ≡ l ++ 13 ∷ 10 ∷ more
    → IsLine l
    → Prints (show_data r) (shown_as plain (trim l)) more
unfolding show_data
show_data-line r l more h (n, u) =
    let (r', e, left, end) = read_line-crlf r l more h n u in
    Prints-printed (show_data r) (shown_as plain (trim l)) r' more
      (ap (or_failed (λ s q. printed (shown_as plain (trim s)) q)) e
        ∙ ap (λ s. printed (shown_as plain s) r') (trim-crlf l))
      left

pub read_answer-Prints :
    (r : Reader) (l more : Text) (s : Shown)
    → remaining r ≡ l ++ 13 ∷ 10 ∷ more
    → IsLine l
    → ((q : Reader) → display (trim l) q ≡ printed s q)
    → Prints (read_answer r) s more
read_answer-Prints r l more s h n k =
    let (r', e, left) = read_answer-line r l more h n in
    Prints-printed (read_answer r) s r' more (e ∙ k r') left

-- The display goes by the first bytes, and these `trim` leaves.
pub display-ok :
    (t : Text) (q : Reader)
    → display (trim (codes "+OK" ++ t)) q ≡ printed (shown_as green (trim (codes "+OK" ++ t))) q
unfolding display starts_with
display-ok t q =
    rw
      (
        trim_front b'+' (codes "OK" ++ t) refl,
        trim_end_front b'O' (b'K' ∷ t) refl,
        trim_end_front b'K' t refl,
      )
      refl

pub display-error :
    (t : Text) (q : Reader)
    → display (trim (codes "-ERR" ++ t)) q ≡ printed (shown_as red (trim (codes "-ERR" ++ t))) q
unfolding display starts_with
display-error t q =
    rw
      (
        trim_front b'-' (codes "ERR" ++ t) refl,
        trim_end_front b'E' (codes "RR" ++ t) refl,
        trim_end_front b'R' (b'R' ∷ t) refl,
        trim_end_front b'R' t refl,
      )
      refl

pub display-delta :
    (t : Text) (q : Reader)
    → display (trim (b'#' ∷ t)) q ≡ printed (shown_as blue (codes "Delta: " ++ trim (b'#' ∷ t))) q
unfolding display starts_with
display-delta t q = rw (trim_front b'#' t refl) refl

pub display-integer :
    (t : Text) (q : Reader)
    → all is_graphic t ≡ true
    → display (trim (b':' ∷ t)) q ≡ printed (shown_as yellow t) q
unfolding display starts_with
display-integer t q h = rw (trim_graphic (b':' ∷ t) h) refl

-- The first byte of a length is no minus sign, so the line is not that of a null.
pub display-bulk :
    (t : Text) (q : Reader)
    → all is_graphic t ≡ true
    → all (λ c. not (c == b'-')) t ≡ true
    → display (trim (b'$' ∷ t)) q ≡ show_data q
unfolding display starts_with text_eq
display-bulk [] q g h = rw (trim_graphic (b'$' ∷ []) refl) refl
display-bulk (c ∷ t) q g h =
    let other : (c == b'-') ≡ false = ground arith in
    rw (trim_graphic (b'$' ∷ c ∷ t) g) (rw other refl)

pub graphic_digit : (d : ℕ) → d < 10 → is_graphic (b'0' + d) ≡ true
graphic_digit d h = ground arith

pub ascii-IsUtf8 : (s : Text) → all is_ascii s ≡ true → IsUtf8 s
unfolding from_utf8_lossy lossy_from
ascii-IsUtf8 [] h = refl
ascii-IsUtf8 (c ∷ s) h = let rest = ascii-IsUtf8 s (ground arith) in ground arith

-- A number is text of one line, and what a length and a delta are sent as.
pub show-IsLine : (n : ℕ) → IsLine (show n)
show-IsLine n = (
  show-all in_line (λ d h. ground arith) n,
  ascii-IsUtf8 (show n) (show-all is_ascii (λ d h. ground arith) n),
)

pub show_int-IsLine : (n : ℤ) → IsLine (show_int n)
show_int-IsLine n = (
  show_int-all in_line (λ d h. ground arith) refl n,
  ascii-IsUtf8 (show_int n) (show_int-all is_ascii (λ d h. ground arith) refl n),
)

pub all-append :
    (p : ℕ → Bool) (s t : Text) → all p s ≡ true → all p t ≡ true → all p (s ++ t) ≡ true
all-append p [] t h k = k
all-append p (c ∷ s) t h k = let rest = all-append p s t in ground arith

pub IsLine-append :
    (a s : Text) → all in_line a ≡ true → All (λ c. c < 0x80) a → IsLine s → IsLine (a ++ s)
IsLine-append a s h k (n, u) = (all-append in_line a s h n, IsUtf8-append a s k u)

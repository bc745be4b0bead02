-- ===== src/Client/Arrays.antt =====
-- crates/ussl-cli/src/main.rs: what the client shows of an array. It takes each item for one line, and a
-- bulk string has two.
use ussl.Prelude.{
  ℕ, zero, suc, ◌+◌, ◌*◌, ◌^◌, ◌<◌, ◌≤◌, ◌≡◌, refl, ap, sym, ◌∙◌, subst, true, List, [], ◌∷◌, ◌++◌,
  Option, All, length, take, drop, arith, append_assoc,
}
use ussl.Text.{Text, codes, starts_with}
use ussl.Text.Space.{trim}
use ussl.Text.Lines.{is_graphic, trim-crlf, trim_graphic}
use ussl.Core.Value.{Value}
use ussl.Protocol.Response.{Response, count, crlf, put, put_items, put_bulk, encode, encode_into}
use ussl.Protocol.Response.Decimal.{show}
use ussl.Protocol.Response.Bytes.{show-all}
use ussl.Core.Document.Meta.{DocumentMeta}
use ussl.Core.Manager.State as Manager
use ussl.Transport.Handler.{Externals, World}
use ussl.Transport.Handler.Whole.{keys_of, handle_keys}
use ussl.Protocol.Response.Frame.{regroup}
use ussl.Client.{
  Ending, Reader, Answer, Shown, shown_as, plain, show_items, display, read_answer, execute_command,
}
use ussl.Client.Lines.{joined, remaining, read_line-crlf}
use ussl.Client.Counts.{parse_usize-show}
use ussl.Client.Shows.{IsLine, read_answer-line, graphic_digit, show-IsLine, IsLine-append}

-- lines with their ends, in front of `more`
abbrev pub with_ends : List Text → Text → Text
with_ends [] more = more
with_ends (l ∷ ls) more = l ++ 13 ∷ 10 ∷ with_ends ls more

-- lines with their numbers, behind number `i`
abbrev pub numbered : ℕ → List Text → List Shown
numbered i [] = []
numbered i (l ∷ ls) = shown_as plain (show (i + 1) ++ codes ") " ++ trim l) ∷ numbered (i + 1) ls

abbrev pub Lists : Answer → List Shown → Text → Type 0
Lists a s more = (a.shown ≡ s) × (a.succeeded ≡ true) × (remaining a.reader ≡ more)

show_items-lines :
    (ls : List Text) (i : ℕ) (r : Reader) (more : Text)
    → remaining r ≡ with_ends ls more
    → All IsLine ls
    → Lists (show_items (length ls) i r) (numbered i ls) more
unfolding show_items
show_items-lines [] i r more h n = (refl, refl, h)
show_items-lines (l ∷ ls) i r more h (n, ns) =
    let (r', e, left, end) = read_line-crlf r l (with_ends ls more) h n.0 n.1 in
    let (shown, good, rest) = show_items-lines ls (i + 1) r' more left ns in
    rw (e, show_items) (rw (shown, trim-crlf l) (refl, good, rest))

-- the lines of bulk strings: of each its length, then its text
abbrev pub bulk_lines : List DocumentMeta → List Text
bulk_lines [] = []
bulk_lines (m ∷ ms) = (b'$' ∷ show (length m.id)) ∷ m.id ∷ bulk_lines ms

with_ends_split :
    (n : ℕ) (ls : List Text) (more : Text)
    → with_ends ls more ≡ with_ends (take n ls) (with_ends (drop n ls) more)
with_ends_split zero ls more = refl
with_ends_split (suc n) [] more = refl
with_ends_split (suc n) (l ∷ ls) more = ap (λ t. l ++ 13 ∷ 10 ∷ t) (with_ends_split n ls more)

All-take : (n : ℕ) (ls : List Text) → All IsLine ls → All IsLine (take n ls)
All-take zero ls h = tt
All-take (suc n) [] h = tt
All-take (suc n) (l ∷ ls) h = (h.0, All-take n ls h.1)

bulk_lines-IsLine :
    (ms : List DocumentMeta) → All (λ m. IsLine m.id) ms → All IsLine (bulk_lines ms)
bulk_lines-IsLine [] h = tt
bulk_lines-IsLine (m ∷ ms) h = (
  IsLine-append (codes "$") (show (length m.id)) refl (omega arith) (show-IsLine (length m.id)),
  (h.0, bulk_lines-IsLine ms h.1),
)

length-take : (n : ℕ) (ls : List Text) → n ≤ length ls → length (take n ls) ≡ n
length-take zero ls h = refl
length-take (suc n) [] h = omega arith
length-take (suc n) (l ∷ ls) h = ap suc (length-take n ls (omega arith))

length-bulk_lines : (ms : List DocumentMeta) → length (bulk_lines ms) ≡ 2 * length ms
length-bulk_lines [] = refl
length-bulk_lines (m ∷ ms) = let rest = length-bulk_lines ms in omega arith

display-array :
    (n : ℕ) (q : Reader) → n < 2 ^ 64 → display (trim (b'*' ∷ show n)) q ≡ show_items n 0 q
unfolding display starts_with
display-array n q h =
    rw (trim_graphic (b'*' ∷ show n) (show-all is_graphic graphic_digit n))
      (rw (parse_usize-show n h) refl)

module _ {F : Type 0} (X : Externals F) where
  count-keys_of : (ms : List DocumentMeta) → count (keys_of X ms) ≡ length ms
  count-keys_of [] = refl
  count-keys_of (m ∷ ms) = ap suc (count-keys_of ms)

  put_items-keys_of :
      (to_json : Value F → Option Text) (ms : List DocumentMeta) (later : Text)
      → put_items to_json (keys_of X ms) ++ later ≡ with_ends (bulk_lines ms) later
  unfolding put_items put put_bulk
  put_items-keys_of to_json [] later = refl
  put_items-keys_of to_json (m ∷ ms) later =
      let rest = put_items to_json (keys_of X ms) ++ later in
      append_assoc (put_bulk m.id) (put_items to_json (keys_of X ms)) later
      ∙ regroup (b'$' ∷ show (length m.id)) m.id rest
      ∙ ap (λ t. (b'$' ∷ show (length m.id)) ++ 13 ∷ 10 ∷ (m.id ++ 13 ∷ 10 ∷ t))
          (put_items-keys_of to_json ms later)

  put-keys_of :
      (to_json : Value F → Option Text) (ms : List DocumentMeta) (later : Text)
      → put to_json (Response.array (keys_of X ms)) ++ later
        ≡ (b'*' ∷ show (length ms)) ++ 13 ∷ 10 ∷ with_ends (bulk_lines ms) later
  unfolding put
  put-keys_of to_json ms later =
      let head = b'*' ∷ show (count (keys_of X ms)) in
      append_assoc (head ++ crlf) (put_items to_json (keys_of X ms)) later
      ∙ append_assoc head crlf (put_items to_json (keys_of X ms) ++ later)
      ∙ ap (λ t. head ++ 13 ∷ 10 ∷ t) (put_items-keys_of to_json ms later)
      ∙ ap (λ c. (b'*' ∷ show c) ++ 13 ∷ 10 ∷ with_ends (bulk_lines ms) later) (count-keys_of ms)

  abbrev pub keys : Option Text → World X → List DocumentMeta
  keys pattern w = Manager.list X.yrs pattern w.manager

  -- Of the answer of the server to KEYS with n ids, n below 2^64 and each id one line of UTF-8, the
  -- client shows the first n lines, which are the length of an id and the id in turn, and leaves the
  -- other n lines unread.
  pub execute_command-handle_keys :
      (to_json : Value F → Option Text) (pattern : Option Text) (w : World X) (reads : List Text)
      (ending : Ending) (later : Text)
      → length (keys pattern w) < 2 ^ 64
      → All (λ m. IsLine m.id) (keys pattern w)
      → joined reads ≡ encode to_json (handle_keys X pattern w) ++ later
      → let n = length (keys pattern w) in
        Lists
          (execute_command true reads ending)
          (numbered 0 (take n (bulk_lines (keys pattern w))))
          (with_ends (drop n (bulk_lines (keys pattern w))) later)
  unfolding execute_command encode encode_into put handle_keys read_answer
  execute_command-handle_keys to_json pattern w reads ending later h n e =
      let ms = keys pattern w in
      let k = length ms in
      let r : Reader = record { buffer = []; reads = reads; ending = ending } in
      let head = b'*' ∷ show k in
      let total = length-bulk_lines ms in
      let (r', first, left) =
        read_answer-line r head (with_ends (bulk_lines ms) later) (e ∙ put-keys_of to_json ms later)
          (IsLine-append (codes "*") (show k) refl (omega arith) (show-IsLine k)) in
      let lines = take k (bulk_lines ms) in
      let all_shown =
        show_items-lines lines 0 r' (with_ends (drop k (bulk_lines ms)) later)
          (left ∙ with_ends_split k (bulk_lines ms) later)
          (All-take k (bulk_lines ms) (bulk_lines-IsLine ms n)) in
      subst (λ a. Lists a (numbered 0 lines) (with_ends (drop k (bulk_lines ms)) later))
        (sym (first ∙ display-array k r' h))
        (subst
          (λ c.
            Lists (show_items c 0 r') (numbered 0 lines) (with_ends (drop k (bulk_lines ms)) later))
          (length-take k (bulk_lines ms) (omega arith)) all_shown)

-- ===== src/Protocol/Parser/Framing.antt =====
-- crates/ussl-protocol/src/parser.rs: how `Parser::feed` and `Parser::parse` cut the bytes into lines.
use ussl.Prelude.{
  ltb, ℕ, ◌+◌, ◌≤◌, ◌<◌, ◌≡◌, ◌≢◌, refl, ap, ◌∙◌, sym, Bool, true, not, [], ◌∷◌, ◌++◌, Option, none,
  some, length, all, ◌==◌, arith, append_assoc, length-append, Option-cases, Bool-cases, ◌⊎◌, inl,
  inr,
}
use ussl.Text.{Text}
use ussl.Text.Utf8.{from_utf8_lossy}
use ussl.Protocol.Json.{SerdeJson, Json}
use ussl.Protocol.Command.{message_too_large, ProtocolError, Parsed, ok, err, ◌>>=◌, Command}
use ussl.Protocol.Parser.{
  Parser, max_message_size, feed, split_line, without_return, read_line, parse_line, parse,
}

abbrev pub in_line : ℕ → Bool
in_line c = not (c == 10)

pub split_line-append :
    (line more : Text)
    → all in_line line ≡ true
    → split_line (line ++ 10 ∷ more) ≡ some (line, more)
unfolding split_line
split_line-append [] more h = refl
split_line-append (c ∷ line) more h = let rest = split_line-append line more in ground arith

pub split_line_incomplete : (line : Text) → all in_line line ≡ true → split_line line ≡ none
unfolding split_line
split_line_incomplete [] h = refl
split_line_incomplete (c ∷ line) h = let rest = split_line_incomplete line in ground arith

pub in_line-return : (line : Text) → all in_line line ≡ true → all in_line (line ++ 13 ∷ []) ≡ true
in_line-return [] h = refl
in_line-return (c ∷ line) h = let rest = in_line-return line in ground arith

-- More bytes behind a line that is complete stay behind it.
pub split_line_more :
    (s more line r : Text)
    → split_line s ≡ some (line, r)
    → split_line (s ++ more) ≡ some (line, r ++ more)
unfolding split_line
split_line_more [] more line r h = ground arith
split_line_more (c ∷ s) more line r h = elim (Option-cases (split_line s)) [
  | inl e ↦ ground arith
  | inr ((l, t), e) ↦ let rest = split_line_more s more l t e in ground arith
]

pub split_line-length : (s line r : Text) → split_line s ≡ some (line, r) → length r < length s
unfolding split_line
split_line-length [] line r h = ground arith
split_line-length (c ∷ s) line r h = elim (Option-cases (split_line s)) [
  | inl e ↦ ground arith
  | inr ((l, t), e) ↦ let rest = split_line-length s l t e in ground arith
]

pub without_return-append : (line : Text) → without_return (line ++ 13 ∷ []) ≡ line
unfolding without_return
without_return-append [] = refl
without_return-append (c ∷ []) = refl
without_return-append (c ∷ d ∷ line) = ap (λ s. c ∷ s) (without_return-append (d ∷ line))

pub feed_fits :
    (p : Parser) (bytes : Text)
    → length p.buffer + length bytes ≤ max_message_size
    → feed bytes p ≡ (ok tt, record { buffer = p.buffer ++ bytes })
unfolding feed
feed_fits p bytes h = ground arith

-- `feed` takes all the bytes, or refuses them and takes none.
pub feed-cases :
    (p : Parser) (bytes : Text)
    → (feed bytes p ≡ (ok tt, record { buffer = p.buffer ++ bytes }))
      ⊎ ((e : ProtocolError) × (feed bytes p ≡ (err e, p)))
unfolding feed
feed-cases p bytes = elim (Bool-cases (ltb max_message_size (length p.buffer + length bytes))) [
  | inl e ↦ inr (message_too_large (length p.buffer + length bytes) max_message_size, rw e refl)
  | inr e ↦ inl (rw e refl)
]

module _ {F : Type 0} (S : SerdeJson F) where
  -- the outcome of `parse` for a line
  abbrev pub line_outcome : Text → Parsed (Option (Command F (Json S.Number)))
  line_outcome line = parse_line S (from_utf8_lossy line) >>= (λ cmd. ok (some cmd))

  pub parse_complete :
      (p : Parser) (line r : Text)
      → split_line p.buffer ≡ some (line, r)
      → parse S p ≡ (line_outcome (without_return line), record { buffer = r })
  unfolding read_line parse
  parse_complete p line r e = rw (e, parse) refl

  pub parse_incomplete : (p : Parser) → split_line p.buffer ≡ none → parse S p ≡ (ok none, p)
  unfolding parse
  parse_incomplete p e = rw (e, parse) refl

  -- For a line without a line feed: with a carriage return and a line feed behind it the parser reads
  -- the line, and keeps what follows; with a line feed alone it reads the line less a carriage return
  -- at its end; as long as no line feed has come it reads nothing and keeps all it has.
  pub parse-lines :
      (line more : Text)
      → all in_line line ≡ true
      → (parse S (record { buffer = line ++ 13 ∷ 10 ∷ more })
          ≡ (line_outcome line, record { buffer = more }))
        × (parse S (record { buffer = line ++ 10 ∷ more })
            ≡ (line_outcome (without_return line), record { buffer = more }))
        × (parse S (record { buffer = line }) ≡ (ok none, record { buffer = line }))
  parse-lines line more h = (
    parse_complete _ (line ++ 13 ∷ []) more (
          rw (sym (append_assoc line (13 ∷ []) (10 ∷ more)))
            (split_line-append (line ++ 13 ∷ []) more (in_line-return line h)))
        ∙ rw (without_return-append line) refl,
    parse_complete _ line more (split_line-append line more h),
    parse_incomplete _ (split_line_incomplete line h),
  )

  -- Bytes that are fed behind a line that is complete change nothing of what `parse` returns, and
  -- stand behind what it leaves; and feeding twice, where both parts fit, is feeding once.
  pub parse-feed :
      (p : Parser) (a b : Text)
      → split_line p.buffer ≢ none
      → length p.buffer + length (a ++ b) ≤ max_message_size
      → (parse S (feed a p).1 ≡ ((parse S p).0, record { buffer = (parse S p).1.buffer ++ a }))
        × (feed b (feed a p).1 ≡ feed (a ++ b) p)
  parse-feed p a b filled fits =
      let short : length p.buffer + length a ≤ max_message_size =
        let l = length-append a b in omega arith in
      (
        elim (Option-cases (split_line p.buffer)) [
          | inl e ↦ absurd (filled e)
          | inr ((line, r), e) ↦
              rw
                (
                  feed_fits p a short,
                  parse_complete _ line (r ++ a) (split_line_more p.buffer a line r e),
                  parse_complete p line r e,
                )
                refl
        ],
        rw (feed_fits p a short, feed_fits p (a ++ b) fits)
            (feed_fits _ b
                (let l = length-append a b in let k = length-append p.buffer a in omega arith)
              ∙ rw (append_assoc p.buffer a b) refl),
      )

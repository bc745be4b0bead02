-- ===== src/Protocol/Tokenizer/Spelling.antt =====
-- crates/ussl-protocol/src/parser.rs: the lines that are written for given arguments.
use ussl.Prelude.{
  ℕ, ◌≡◌, refl, ap, Bool, true, false, not, List, [], ◌∷◌, ◌++◌, none, some, ◌==◌, arith, all, All,
  length, map, append_assoc,
}
use ussl.Text.{Text}
use ussl.Protocol.Tokenizer.{
  skip_spaces, find_quote, span_word, read_token, next_token, next_tokens,
}

-- An argument as it is written: as it is, or between quotation marks.
pub data Argument : Type 0 where
  plain : Text → Argument
  quoted : Text → Argument

abbrev pub meaning : Argument → Text
meaning (plain t) = t
meaning (quoted t) = t

abbrev not_space : ℕ → Bool
not_space c = not (c == b' ')

abbrev not_quote : ℕ → Bool
not_quote c = not (c == b'"')

abbrev starts_plain : Text → Bool
starts_plain [] = false
starts_plain (c ∷ t) = not_quote c

-- A plain argument has a byte, no space, and no quotation mark in front; a quoted one has no quotation
-- mark.
abbrev pub IsArgument : Argument → Type 0
IsArgument (plain t) = (starts_plain t ≡ true) × (all not_space t ≡ true)
IsArgument (quoted t) = all not_quote t ≡ true

abbrev pub spell_argument : Argument → Text
spell_argument (plain t) = t
spell_argument (quoted t) = b'"' ∷ (t ++ b'"' ∷ [])

-- each argument behind a space
abbrev pub spell : List Argument → Text
spell [] = []
spell (a ∷ xs) = b' ' ∷ (spell_argument a ++ spell xs)

-- what may follow a plain argument
abbrev pub Stops : Text → Type 0
Stops [] = Unit
Stops (c ∷ s) = c ≡ b' '

pub spell-Stops : (xs : List Argument) → Stops (spell xs)
spell-Stops [] = tt
spell-Stops (a ∷ xs) = refl

span_word-append : (t s : Text) → all not_space t ≡ true → Stops s → span_word (t ++ s) ≡ (t, s)
unfolding span_word
span_word-append [] [] h e = refl
span_word-append [] (c ∷ s) h e = ground arith
span_word-append (c ∷ t) s h e = let tail = span_word-append t s in ground arith

find_quote-append : (t s : Text) → all not_quote t ≡ true → find_quote (t ++ b'"' ∷ s) ≡ some (t, s)
unfolding find_quote
find_quote-append [] s h = refl
find_quote-append (c ∷ t) s h = let tail = find_quote-append t s in ground arith

pub next_token-argument :
    (a : Argument) (s : Text)
    → IsArgument a
    → Stops s
    → next_token (b' ' ∷ (spell_argument a ++ s)) ≡ (some (meaning a), s)
unfolding next_token skip_spaces read_token
next_token-argument (plain []) s h e = ground arith
next_token-argument (plain (c ∷ t)) s h e = let w = span_word-append (c ∷ t) s h.1 e in ground arith
next_token-argument (quoted t) s h e =
    rw (append_assoc t (b'"' ∷ []) s, find_quote-append t s h) refl

pub next_token-nil : next_token [] ≡ (none, [])
unfolding next_token skip_spaces read_token
next_token-nil = refl

next_tokens-eq_meanings :
    (xs : List Argument)
    → All IsArgument xs
    → next_tokens (length xs) (spell xs) ≡ (map (λ a. some (meaning a)) xs, [])
unfolding next_tokens
next_tokens-eq_meanings [] h = refl
next_tokens-eq_meanings (a ∷ xs) h =
    rw (next_token-argument a (spell xs) h.0 (spell-Stops xs))
      (ap (λ r. (some (meaning a) ∷ r.0, r.1)) (next_tokens-eq_meanings xs h.1))

-- From a line that spells arguments, plain ones with a byte, no space and no quotation mark in front,
-- and quoted ones with no quotation mark, the tokenizer reads exactly these, one for each call of
-- `next`, and a further call finds no more.
next_tokens-spell :
    (xs : List Argument)
    → All IsArgument xs
    → (next_tokens (length xs) (spell xs) ≡ (map (λ a. some (meaning a)) xs, []))
      × (next_token (next_tokens (length xs) (spell xs)).1 ≡ (none, []))
unfolding next_token skip_spaces read_token
next_tokens-spell xs h =
    (next_tokens-eq_meanings xs h, ap (λ r. next_token r.1) (next_tokens-eq_meanings xs h))

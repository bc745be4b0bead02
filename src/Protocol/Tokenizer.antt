-- ===== src/Protocol/Tokenizer.antt =====
-- crates/ussl-protocol/src/parser.rs: `Tokenizer`. Its state is what is left of the input from `pos`
-- on, and a method returns its result with what is then left.
pub mod Spelling
pub mod Tokens
use ussl.Prelude.{ℕ, zero, suc, Bool, List, [], ◌∷◌, Option, none, some, ◌==◌, if◌then◌else◌}
use ussl.Text.{Text}

-- the loop that skips spaces
unfoldable pub skip_spaces : Text → Text
skip_spaces [] = []
skip_spaces (c ∷ s) = let rest = skip_spaces s in if c == b' ' then rest else c ∷ s

-- `remaining[1..].find('"')`: what stands before and behind the next quotation mark
unfoldable pub find_quote : Text → Option (Text × Text)
find_quote [] = none
find_quote (c ∷ s) =
    if c == b'"'
    then some ([], s)
    else elim (find_quote s) [ none ↦ none | some (t, r) ↦ some (c ∷ t, r) ]

-- `remaining.find(' ')`: what stands before the next space, and the rest from it on
unfoldable pub span_word : Text → Text × Text
span_word [] = ([], [])
span_word (c ∷ s) = let (t, r) = span_word s in if c == b' ' then ([], c ∷ s) else (c ∷ t, r)

abbrev pub word : Text × Text → Option Text × Text
word (t, r) = (some t, r)

-- A quotation mark that is never closed begins a regular token.
unfoldable pub read_token : Text → Option Text × Text
read_token [] = (none, [])
read_token (c ∷ s) =
    if c == b'"'
    then elim (find_quote s) [ none ↦ word (span_word (c ∷ s)) | some (t, r) ↦ (some t, r) ]
    else word (span_word (c ∷ s))

-- `Tokenizer::next`
unfoldable pub next_token : Text → Option Text × Text
next_token s = read_token (skip_spaces s)

abbrev pub rest_of : Text → Option Text × Text
rest_of [] = (none, [])
rest_of (c ∷ s) = (some (c ∷ s), [])

-- `Tokenizer::rest`
unfoldable pub rest : Text → Option Text × Text
rest s = rest_of (skip_spaces s)

-- What so many calls of `next` return, and what is left after them.
unfoldable pub next_tokens : ℕ → Text → List (Option Text) × Text
next_tokens zero s = ([], s)
next_tokens (suc n) s =
    let r = next_token s in let more = next_tokens n r.1 in (r.0 ∷ more.0, more.1)

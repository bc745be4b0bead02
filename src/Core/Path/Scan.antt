-- ===== src/Core/Path/Scan.antt =====
-- crates/ussl-core/src/crdt.rs: the text of a path is cut into segments.
-- `none` of `next`, `collect` and `segments` means that the fuel, one unit for each call of
-- `PathParser::next`, ran out.
use ussl.Prelude.{
  ℕ, zero, suc, ◌+◌, ◌*◌, ◌-◌, ◌≡◌, refl, Bool, ◌&&◌, ◌||◌, List, [], ◌∷◌, Option, none, some, ltb,
  leb, ◌==◌, length, if◌then◌else◌, ◌^◌,
}
use ussl.Text.{Text, codes}

pub data PathSegment : Type 0 where
  key : Text → PathSegment
  index : ℕ → PathSegment

-- The digits of `str::parse::<usize>`, which refuses a number past 64 bits.
unfoldable pub parse_digits : ℕ → Text → Option ℕ
parse_digits n [] = some n
parse_digits n (c ∷ s) =
    let n' = n * 10 + (c - b'0') in
    let rest = parse_digits n' s in
    if leb b'0' c && leb c b'9' && ltb n' (2 ^ 64) then rest else none

-- `str::parse::<usize>`: an optional plus sign and at least one digit
unfoldable pub parse_usize : Text → Option ℕ
parse_usize [] = none
parse_usize (c ∷ []) = parse_digits 0 (c ∷ [])
parse_usize (c ∷ d ∷ s) = if c == b'+' then parse_digits 0 (d ∷ s) else parse_digits 0 (c ∷ d ∷ s)

-- `remaining.find(']')`: what stands before and behind the first closing bracket
unfoldable pub close : Text → Option (Text × Text)
close [] = none
close (c ∷ s) =
    if c == b']'
    then some ([], s)
    else elim (close s) [ none ↦ none | some (b, r) ↦ some (c ∷ b, r) ]

abbrev pub is_delimiter : ℕ → Bool
is_delimiter c = c == b'.' || c == b'['

-- `remaining.find(|c| c == '.' || c == '[')`: the key before the delimiter, and the rest from it on
unfoldable pub span_key : Text → Text × Text
span_key [] = ([], [])
span_key (c ∷ s) = let (k, r) = span_key s in if is_delimiter c then ([], c ∷ s) else (c ∷ k, r)

-- What one run of the body of `next` comes to: the end, a segment and the rest, or the call
-- `self.next()` at the rest.
pub data Scan : Type 0 where
  done : Scan
  found : PathSegment → Text → Scan
  again : Text → Scan

-- Behind an opening bracket. What is no index leaves an empty key before the bracket; with a closing
-- bracket `pos` has moved past it, with none it still stands at the opening one.
unfoldable pub scan_index : Text → Scan
scan_index s = elim (close s) [
  | none ↦ again (b'[' ∷ s)
  | some (b, r) ↦ elim (parse_usize b) [ some i ↦ found (index i) r | none ↦ again r ]
]

unfoldable pub scan_key : Text × Text → Scan
scan_key ([], r) = again r
scan_key (c ∷ k, r) = found (key (c ∷ k)) r

-- behind the leading dot
unfoldable pub scan_segment : Text → Scan
scan_segment [] = done
scan_segment (c ∷ s) = if c == b'[' then scan_index s else scan_key (span_key (c ∷ s))

unfoldable pub scan : Text → Scan
scan [] = done
scan (c ∷ s) = if c == b'.' then scan_segment s else scan_segment (c ∷ s)

-- `PathParser::next`
unfoldable pub next : ℕ → Text → Option (Option (PathSegment × Text))
next zero s = none
next (suc f) s = elim (scan s) [
  | done ↦ some none
  | found p r ↦ some (some (p, r))
  | again r ↦ next f r
]

-- Everything below `collect`, for a run.
unfoldable pub run_collect : Unit {0}
unfolding parse_digits parse_usize close span_key scan_index scan_key scan_segment scan next
run_collect = tt

-- `PathSegment::parse(path).collect()`
unfoldable pub collect : ℕ → Text → Option (List PathSegment)
collect zero s = none
collect (suc f) s = elim (next (suc f) s) [
  | none ↦ none
  | some none ↦ some []
  | some (some (p, r)) ↦ elim (collect f r) [ none ↦ none | some ps ↦ some (p ∷ ps) ]
]

-- Each call but the last consumes a byte of a path that is parsed at all, so this fuel is enough.
unfoldable pub segments : Text → Option (List PathSegment)
segments path = collect (length path + 1) path

pub segments_nil : segments [] ≡ some []
unfolding segments collect run_collect
segments_nil = refl

nested :
    segments (codes "users[0].name")
    ≡ some (key (codes "users") ∷ index 0 ∷ key (codes "name") ∷ [])
unfolding segments collect run_collect
nested = refl

lenient : segments (codes ".a..[x]b[+7]") ≡ some (key (codes "a") ∷ key (codes "b") ∷ index 7 ∷ [])
unfolding segments collect run_collect
lenient = refl

-- ===== src/Core/Path/Spelling.antt =====
-- crates/ussl-core/src/crdt.rs: the paths that are written for given segments.
use ussl.Prelude.{
  ℕ, zero, suc, ◌+◌, ◌*◌, ◌-◌, inl, inr, ◌≤◌, ◌≡◌, ◌≢◌, refl, sym, ◌⊎◌, ◌∙◌, true, false, List, [],
  ◌∷◌, ◌++◌, map, some, arith, length, All, length-append, ◌==◌, Bool-cases, if◌then◌else◌,
}
use native.Mathlib.Numerals.{add-one}
use ussl.Text.{Text}
use ussl.Core.Path.Scan.{
  PathSegment, key, index, found, is_delimiter, parse_usize, parse_digits, close, span_key,
  scan_index, scan_key, scan_segment, scan, next, collect, segments,
}

-- A segment as it is written: a key, or a number between brackets.
pub data Part : Type 0 where
  name : Text → Part
  bracket : Text → ℕ → Part

abbrev pub meaning : Part → PathSegment
meaning (name k) = key k
meaning (bracket t i) = index i

abbrev pub spell : List Part → Text
spell [] = []
spell (name k ∷ ps) = b'.' ∷ (k ++ spell ps)
spell (bracket t i ∷ ps) = b'[' ∷ (t ++ b']' ∷ spell ps)

-- A key has a byte and no delimiter; the text of a number reads as the number.
abbrev pub IsPart : Part → Type 0
IsPart (name k) = (k ≢ []) × All (λ c. is_delimiter c ≡ false) k
IsPart (bracket t i) = parse_usize t ≡ some i

-- what may follow a key
abbrev Stops : Text → Type 0
Stops [] = Unit
Stops (c ∷ s) = is_delimiter c ≡ true

spell-Stops : (ps : List Part) → Stops (spell ps)
spell-Stops [] = tt
spell-Stops (name k ∷ ps) = refl
spell-Stops (bracket t i ∷ ps) = refl

span_key_stop : (r : Text) → Stops r → span_key r ≡ ([], r)
unfolding span_key
span_key_stop [] h = refl
span_key_stop (c ∷ s) h = rw (h, if◌then◌else◌)

span_key-append :
    (k r : Text) → All (λ c. is_delimiter c ≡ false) k → Stops r → span_key (k ++ r) ≡ (k, r)
unfolding span_key
span_key-append [] r h s = span_key_stop r s
span_key-append (c ∷ k) r h s = simp (h.0, span_key-append k r h.1 s)

-- Digits hold no closing bracket.
parse_digits-close :
    (n i : ℕ) (t r : Text) → parse_digits n t ≡ some i → close (t ++ b']' ∷ r) ≡ some (t, r)
unfolding parse_digits close
parse_digits-close n i [] r h = refl
parse_digits-close n i (c ∷ t) r h = ground (arith, parse_digits-close (n * 10 + (c - b'0')) i t r)

parse_usize-close :
    (i : ℕ) (t r : Text) → parse_usize t ≡ some i → close (t ++ b']' ∷ r) ≡ some (t, r)
unfolding parse_usize close
parse_usize-close i [] r h = cc
parse_usize-close i (c ∷ []) r h = parse_digits-close 0 i (c ∷ []) r h
parse_usize-close i (c ∷ d ∷ t) r h = elim (Bool-cases (c == b'+')) [
  | inl p ↦ plus (ground (arith, parse_digits-close 0 i (d ∷ t) r)) p
  | inr p ↦ parse_digits-close 0 i (c ∷ d ∷ t) r (rw p at h)
]
  where
    plus :
        close (d ∷ t ++ b']' ∷ r) ≡ some (d ∷ t, r)
        → (c == b'+') ≡ true
        → close (c ∷ d ∷ t ++ b']' ∷ r) ≡ some (c ∷ d ∷ t, r)
    plus e p = ground arith

scan-name :
    (k : Text) (ps : List Part)
    → IsPart (name k)
    → scan (spell (name k ∷ ps)) ≡ found (key k) (spell ps)
unfolding scan scan_segment scan_key
scan-name [] ps h = absurd (h.0 refl)
scan-name (c ∷ k) ps h =
    let e : span_key (c ∷ k ++ spell ps) ≡ (c ∷ k, spell ps) =
      span_key-append (c ∷ k) (spell ps) h.1 (spell-Stops ps) in
    let no_bracket : (c == b'[') ≡ false = ground arith in rw (no_bracket, if◌then◌else◌, e)

scan-bracket :
    (t : Text) (i : ℕ) (ps : List Part)
    → parse_usize t ≡ some i
    → scan (spell (bracket t i ∷ ps)) ≡ found (index i) (spell ps)
unfolding scan scan_segment scan_index
scan-bracket t i ps h = rw (parse_usize-close i t (spell ps) h, h, scan_index)

-- what is left to spell behind the first part is shorter by two bytes at least
length-spell :
    (p : Part) (ps : List Part) → IsPart p → length (spell ps) + 2 ≤ length (spell (p ∷ ps))
length-spell (name []) ps h = absurd (h.0 refl)
length-spell (name (c ∷ k)) ps h = omega (arith, length-append {0} k (spell ps))
length-spell (bracket t i) ps h = omega (arith, length-append {0} t (b']' ∷ spell ps))

collect-spell :
    (f : ℕ) (ps : List Part)
    → length (spell ps) ≤ suc f
    → All IsPart ps
    → collect (suc f) (spell ps) ≡ some (map meaning ps)
unfolding collect next
collect-spell f [] l h = unfold scan in refl
collect-spell zero (p ∷ ps) l h = absurd (omega (arith, length-spell p ps h.0))
collect-spell (suc f) (name k ∷ ps) l h = rw (
  scan-name k ps h.0,
  collect-spell f ps (omega (arith, length-spell (name k) ps h.0)) h.1,
  next,
  collect,
)
collect-spell (suc f) (bracket t i ∷ ps) l h = rw (
  scan-bracket t i ps h.0,
  collect-spell f ps (omega (arith, length-spell (bracket t i) ps h.0)) h.1,
  next,
  collect,
)

-- The first dot of a path that is written with one may be left out.
collect_bare :
    (f : ℕ) (c : ℕ) (s : Text) → (c == b'.') ≡ false → collect f (b'.' ∷ c ∷ s) ≡ collect f (c ∷ s)
unfolding collect next scan
collect_bare zero c s h = refl
collect_bare (suc f) c s h = rw (h, scan, next, collect)

-- A path that spells keys, which have a byte and no delimiter, and numbers between brackets, its first
-- dot written or left out, is cut into those segments.
segments-spell :
    (path : Text) (ps : List Part)
    → All IsPart ps
    → (path ≡ spell ps) ⊎ ((b'.' ∷ path) ≡ spell ps)
    → segments path ≡ some (map meaning ps)
unfolding segments
segments-spell path ps h (inl e) =
    rw (e, add-one) (collect-spell (length (spell ps)) ps (omega arith) h)
segments-spell path [] h (inr e) = cc
segments-spell path (bracket t i ∷ ps) h (inr e) = absurd (ground arith)
segments-spell path (name [] ∷ ps) h (inr e) = absurd (h.0.0 refl)
segments-spell path (name (c ∷ k) ∷ ps) h (inr e) =
    let bare : path ≡ c ∷ k ++ spell ps = cc in
    let no_dot : (c == b'.') ≡ false = ground arith in
    rw (bare, add-one)
      (sym (collect_bare (suc (suc (length (k ++ spell ps)))) c (k ++ spell ps) no_dot)
        ∙ collect-spell (suc (length (k ++ spell ps))) (name (c ∷ k) ∷ ps) (omega arith) h)

-- ===== src/Core/Path/Progress.antt =====
-- crates/ussl-core/src/crdt.rs: how far one run of the body of `PathParser::next` gets, by whether
-- every opening bracket of the rest has a closing one behind it.
use ussl.Prelude.{
  ℕ, suc, ◌+◌, ◌<◌, ◌≡◌, refl, sym, subst, ◌⊎◌, inl, inr, Bool, true, false, not, ◌&&◌, ◌||◌, [],
  ◌∷◌, ◌++◌, Option, none, some, arith, ◌==◌, length, any, Bool-cases, Option-cases, length-append,
  ==_iff,
}
use ussl.Text.{Text}
use ussl.Core.Path.Scan.{
  close, span_key, Scan, done, found, again, scan_index, scan_key, scan_segment, scan,
}

abbrev has_close : Text → Bool
has_close s = any (λ c. c == b']') s

-- Behind every opening bracket there is a closing one.
unfoldable pub is_closed : Text → Bool
is_closed [] = true
is_closed (c ∷ s) = (not (c == b'[') || has_close s) && is_closed s

has_close-append : (b r : Text) → has_close (b ++ b']' ∷ r) ≡ true
has_close-append [] r = refl
has_close-append (c ∷ b) r = ground (arith, has_close-append b r)

is_closed-bracket : (b r : Text) → is_closed (b ++ b']' ∷ r) ≡ is_closed r
unfolding is_closed
is_closed-bracket [] r = refl
is_closed-bracket (c ∷ b) r = ground (arith, has_close-append b r, is_closed-bracket b r)

abbrev Closes : Text → Option (Text × Text) → Type 0
Closes s none = has_close s ≡ false
Closes s (some (b, r)) = s ≡ b ++ b']' ∷ r

close-Closes : (s : Text) → Closes s (close s)
unfolding close
close-Closes [] = refl
close-Closes (c ∷ s) = ground (arith, close-Closes s)

is_closed-span_key : (s : Text) → is_closed (span_key s).1 ≡ is_closed s
unfolding is_closed span_key
is_closed-span_key [] = refl
is_closed-span_key (c ∷ s) = ground (arith, is_closed-span_key s)

length-span_key : (s : Text) → length (span_key s).0 + length (span_key s).1 ≡ length s
unfolding span_key
length-span_key [] = omega arith
length-span_key (c ∷ s) = ground (arith, length-span_key s)

-- Without its delimiter a key has at least one byte, so less is left behind it.
span_key-lt :
    (c : ℕ) (s : Text)
    → (c == b'.') ≡ false
    → (c == b'[') ≡ false
    → length (span_key (c ∷ s)).1 < suc (length s)
unfolding span_key
span_key-lt c s d o = ground (arith, length-span_key s)

-- What a run leaves: nothing of an unclosed rest is lost, and a closed rest gets shorter.
abbrev pub Advances : Text → Scan → Type 0
Advances s done = is_closed s ≡ true
Advances s (found p r) = (is_closed r ≡ is_closed s) × (length r < length s)
Advances s (again r) = (is_closed r ≡ is_closed s) × ((length r < length s) ⊎ (is_closed s ≡ false))

index_closed :
    (s b r : Text) → s ≡ b ++ b']' ∷ r → close s ≡ some (b, r) → Advances (b'[' ∷ s) (scan_index s)
unfolding scan_index is_closed
index_closed s b r e h =
    rw (h, scan_index)
      (ground (arith, has_close-append b r, is_closed-bracket b r, length-append b (b']' ∷ r)))

index_open : (s : Text) → has_close s ≡ false → close s ≡ none → Advances (b'[' ∷ s) (scan_index s)
unfolding scan_index is_closed
index_open s e h = rw (h, scan_index) (ground arith)

scan_index-Advances : (s : Text) → Advances (b'[' ∷ s) (scan_index s)
scan_index-Advances s = elim (Option-cases (close s)) [
  | inl h ↦ index_open s (rw h at (close-Closes s)) h
  | inr ((b, r), h) ↦ index_closed s b r (rw h at (close-Closes s)) h
]

scan_key-Advances :
    (c : ℕ) (s : Text)
    → (c == b'[') ≡ false
    → (c == b'.') ≡ false
    → Advances (c ∷ s) (scan_key (span_key (c ∷ s)))
unfolding scan_key span_key
scan_key-Advances c s o d =
    let e = is_closed-span_key s in
    let l = length-span_key s in simp (o, d) (unfold is_closed in ground (arith, e, l))

scan_segment-Advances :
    (c : ℕ) (s : Text) → (c == b'.') ≡ false → Advances (c ∷ s) (scan_segment (c ∷ s))
unfolding scan_segment scan_index scan_key span_key
scan_segment-Advances c s d = elim (Bool-cases (c == b'[')) [
  | inl o ↦ rw o (
      subst (λ x. Advances (x ∷ s) (scan_index s)) (sym ((==_iff c b'[').0 o))
        (scan_index-Advances s))
  | inr o ↦ rw o (rw o at (scan_key-Advances c s o d))
]

Advances-dot : (s : Text) (x : Scan) → Advances s x → Advances (b'.' ∷ s) x
unfolding is_closed
Advances-dot s done h = h
Advances-dot s (found p r) h = ground arith
Advances-dot s (again r) h = ground arith

-- Behind a dot the rest may begin with a dot again, and has got shorter by the first one.
dot_dot : (s : Text) → Advances (b'.' ∷ b'.' ∷ s) (scan_segment (b'.' ∷ s))
unfolding scan_segment scan_key span_key is_closed
dot_dot s = (refl, inl (omega arith))

behind_dot : (s : Text) → Advances (b'.' ∷ s) (scan_segment s)
behind_dot [] = unfold is_closed scan_segment in refl
behind_dot (c ∷ s) = elim (Bool-cases (c == b'.')) [
  | inl d ↦
      subst (λ x. Advances (b'.' ∷ x ∷ s) (scan_segment (x ∷ s))) (sym ((==_iff c b'.').0 d))
        (dot_dot s)
  | inr d ↦ Advances-dot (c ∷ s) (scan_segment (c ∷ s)) (scan_segment-Advances c s d)
]

pub scan-Advances : (s : Text) → Advances s (scan s)
unfolding scan scan_segment scan_key span_key scan_index
scan-Advances [] = unfold is_closed in refl
scan-Advances (c ∷ s) = elim (Bool-cases (c == b'.')) [
  | inl d ↦
      rw d
        (subst (λ x. Advances (x ∷ s) (scan_segment s)) (sym ((==_iff c b'.').0 d)) (behind_dot s))
  | inr d ↦ rw d (rw d at (scan_segment-Advances c s d))
]

-- ===== src/Client/Lines.antt =====
-- crates/ussl-cli/src/main.rs: a line is read whole, however its bytes are spread over reads.
use ussl.Prelude.{
  ◌≡◌, refl, ap, sym, ◌∙◌, List, [], ◌∷◌, ◌++◌, Option, none, some, all, arith, append_assoc,
  append-nil, Option-cases, inl, inr, some_inj, some-ne-none, subst, true,
}
use ussl.Text.{Text, text_eq_refl}
use ussl.Text.Lines.{IsUtf8, IsUtf8-crlf}
use ussl.Protocol.Parser.{split_line}
use ussl.Protocol.Parser.Framing.{in_line, split_line-append, split_line_more, in_line-return}
use ussl.Client.{Ending, Reader, Until, line, read_until, read_line}

-- All that the reads give.
abbrev pub joined : List Text → Text
joined [] = []
joined (s ∷ reads) = s ++ joined reads

-- What a reader still gives out.
abbrev pub remaining : Reader → Text
remaining r = r.buffer ++ joined r.reads

-- the first line of `b ++ t`, where `b` has no end of one
abbrev with_front : Text → Option (Text × Text) → Option (Text × Text)
with_front b none = none
with_front b (some (l, r)) = some (b ++ l, r)

split_line_front :
    (b t : Text) → split_line b ≡ none → split_line (b ++ t) ≡ with_front b (split_line t)
unfolding split_line
split_line_front [] t h = elim (Option-cases (split_line t)) [
  | inl e ↦ rw e refl
  | inr (x, e) ↦ rw e refl
]
split_line_front (c ∷ b) t h = elim (Option-cases (split_line b)) [
  | inl e ↦
      let rest = split_line_front b t e in
      elim (Option-cases (split_line t)) [ inl k ↦ ground arith | inr ((l, r), k) ↦ ground arith ]
  | inr ((l, r), e) ↦ ground arith
]

abbrev Reads : Until → Text → Text → Type 0
Reads u l more =
    (rest : Text) × (reads : List Text) × (u ≡ line (l ++ 10 ∷ []) rest reads)
    × (rest ++ joined reads ≡ more)

read_until-split :
    (buffer : Text) (reads : List Text) (l more : Text)
    → split_line (buffer ++ joined reads) ≡ some (l, more)
    → Reads (read_until buffer reads) l more
unfolding read_until
read_until-split buffer [] l more h = elim (Option-cases (split_line buffer)) [
  | inl e ↦ some-ne-none h (rw (append-nil buffer) e)
  | inr ((l', r), e) ↦
      let same = some_inj (sym h ∙ split_line_more buffer [] l' r e) in
      (
        r,
        [],
        rw e (ap (λ (x : Text × Text). line (x.0 ++ 10 ∷ []) r []) (sym same)),
        ap (λ (x : Text × Text). x.1) (sym same),
      )
]
read_until-split buffer (s ∷ reads) l more h = elim (Option-cases (split_line buffer)) [
  | inl e ↦ elim (Option-cases (split_line (s ++ joined reads))) [
    | inl k ↦
        some-ne-none h (split_line_front buffer (s ++ joined reads) e ∙ ap (with_front buffer) k)
    | inr ((l', r), k) ↦
        let same =
          some_inj
            (sym h ∙ split_line_front buffer (s ++ joined reads) e ∙ ap (with_front buffer) k) in
        let (rest, reads', found, left) = read_until-split s reads l' r k in
        (
          rest,
          reads',
          rw (e, found)
              (ap (λ t. line t rest reads')
                (sym (append_assoc buffer l' (10 ∷ []))
                  ∙ ap (λ (x : Text × Text). x.0 ++ 10 ∷ []) (sym same))),
          left ∙ ap (λ (x : Text × Text). x.1) (sym same),
        )
  ]
  | inr ((l', r), e) ↦
      let same = some_inj (sym h ∙ split_line_more buffer (s ++ joined reads) l' r e) in
      (
        r,
        s ∷ reads,
        rw e (ap (λ (x : Text × Text). line (x.0 ++ 10 ∷ []) r (s ∷ reads)) (sym same)),
        ap (λ (x : Text × Text). x.1) (sym same),
      )
]

-- A line of UTF-8 is given out with its line feed, and the reader stands behind it.
abbrev Gives : Option Text × Reader → Ending → Text → Text → Type 0
Gives o e l more = (r' : Reader) × (o ≡ (some l, r')) × (remaining r' ≡ more) × (r'.ending ≡ e)

read_line-split :
    (r : Reader) (l more : Text)
    → split_line (remaining r) ≡ some (l, more)
    → IsUtf8 (l ++ 10 ∷ [])
    → Gives (read_line r) r.ending (l ++ 10 ∷ []) more
unfolding read_line
read_line-split r l more h u =
    let (rest, reads, found, left) = read_until-split r.buffer r.reads l more h in
    let r' : Reader = record { buffer = rest; reads = reads; ending = r.ending } in
    (r', rw (found, read_line) (rw (u, text_eq_refl (l ++ 10 ∷ [])) refl), left, refl)

pub read_line-crlf :
    (r : Reader) (l more : Text)
    → remaining r ≡ l ++ 13 ∷ 10 ∷ more
    → all in_line l ≡ true
    → IsUtf8 l
    → Gives (read_line r) r.ending (l ++ 13 ∷ 10 ∷ []) more
read_line-crlf r l more h n u =
    let parts = append_assoc l (13 ∷ []) (10 ∷ []) in
    let cut = split_line-append (l ++ 13 ∷ []) more (in_line-return l n) in
    let whole = h ∙ sym (append_assoc l (13 ∷ []) (10 ∷ more)) in
    let (r', e, left, end) =
      read_line-split r (l ++ 13 ∷ []) more (ap split_line whole ∙ cut)
        (subst IsUtf8 (sym parts) (IsUtf8-crlf l u)) in
    (r', e ∙ ap (λ t. (some t, r')) parts, left, end)

-- ===== src/Core/Path/Closed.antt =====
-- crates/ussl-core/src/crdt.rs: for which paths the iterator `PathParser` comes to its end.
use ussl.Prelude.{
  ℕ, zero, suc, ◌+◌, ◌<◌, ◌≡◌, refl, sym, subst, ◌∙◌, ◌↔◌, inl, inr, true, false, List, [], ◌∷◌,
  Option, none, some, arith, length, Bool-cases, Option-cases, some_inj, some-ne-none,
}
use ussl.Text.{Text}
use ussl.Core.Path.Scan.{PathSegment, Scan, done, found, again, scan, next, collect, segments}
use ussl.Core.Path.Progress.{is_closed, Advances, scan-Advances}

-- The rest that a call of `next` leaves is shorter, and closed like the one before.
abbrev Leaves : Text → Option (PathSegment × Text) → Type 0
Leaves s none = Unit
Leaves s (some (p, r)) = (is_closed r ≡ is_closed s) × (length r < length s)

Leaves-trans :
    (r s : Text) (o : Option (PathSegment × Text))
    → length r < length s
    → is_closed r ≡ is_closed s
    → Leaves r o
    → Leaves s o
Leaves-trans r s none h c l = tt
Leaves-trans r s (some (p, t)) h c l = (l.0 ∙ c, omega arith)

next_total :
    (f : ℕ) (s : Text)
    → length s < f
    → is_closed s ≡ true
    → (o : Option (PathSegment × Text)) × (next f s ≡ some o) × Leaves s o
unfolding next
next_total zero s h c = absurd (omega arith)
next_total (suc f) s h c = go (scan s) refl (scan-Advances s) (next_total f)
  where
    go :
        (x : Scan)
        → scan s ≡ x
        → Advances s x
        → ((r : Text)
            → length r < f
            → is_closed r ≡ true
            → (o : Option (PathSegment × Text)) × (next f r ≡ some o) × Leaves r o)
        → (o : Option (PathSegment × Text)) × (next (suc f) s ≡ some o) × Leaves s o
    go done e a ih = (none, rw (e, next), tt)
    go (found p r) e a ih = (some (p, r), rw (e, next), a)
    go (again r) e a ih =
        let shorter : length r < length s = ground arith in
        let (o, t, l) = ih r (omega arith) (a.0 ∙ c) in
        (o, rw (e, next) t, Leaves-trans r s o shorter a.0 l)

next_open :
    (f : ℕ) (s : Text) (o : Option (PathSegment × Text))
    → is_closed s ≡ false
    → next f s ≡ some o
    → (p : PathSegment × Text) × (o ≡ some p) × (is_closed p.1 ≡ false)
unfolding next
next_open zero s o c h = cc
next_open (suc f) s o c h = go (scan s) refl (scan-Advances s) (next_open f)
  where
    go :
        (x : Scan)
        → scan s ≡ x
        → Advances s x
        → ((r : Text) (o : Option (PathSegment × Text))
            → is_closed r ≡ false
            → next f r ≡ some o
            → (p : PathSegment × Text) × (o ≡ some p) × (is_closed p.1 ≡ false))
        → (p : PathSegment × Text) × (o ≡ some p) × (is_closed p.1 ≡ false)
    go done e a ih = cc (sym a ∙ c)
    go (found p r) e a ih = ((p, r), sym (some_inj (rw (e, next) at h)), a.0 ∙ c)
    go (again r) e a ih = ih r o (a.0 ∙ c) (rw (e, next) at h)

collect_total :
    (f : ℕ) (s : Text)
    → length s < f
    → is_closed s ≡ true
    → (ps : List PathSegment) × (collect f s ≡ some ps)
unfolding collect
collect_total zero s h c = absurd (omega arith)
collect_total (suc f) s h c = go (next_total (suc f) s h c) (collect_total f)
  where
    go :
        (o : Option (PathSegment × Text)) × (next (suc f) s ≡ some o) × Leaves s o
        → ((r : Text)
            → length r < f
            → is_closed r ≡ true
            → (ps : List PathSegment) × (collect f r ≡ some ps))
        → (ps : List PathSegment) × (collect (suc f) s ≡ some ps)
    go (none, e, l) ih = ([], rw (e, collect))
    go (some (p, r), e, l) ih =
        let (ps, t) = ih r (omega arith) (l.0 ∙ c) in (p ∷ ps, rw (e, t, collect))

-- On a path with an opening bracket that is not closed, no fuel is enough: `next` calls itself
-- without end.
pub collect_open : (f : ℕ) (s : Text) → is_closed s ≡ false → collect f s ≡ none
unfolding collect
collect_open zero s c = refl
collect_open (suc f) s c = go (next (suc f) s) refl (collect_open f)
  where
    go :
        (x : Option (Option (PathSegment × Text)))
        → next (suc f) s ≡ x
        → ((r : Text) → is_closed r ≡ false → collect f r ≡ none)
        → collect (suc f) s ≡ none
    go none e ih = rw (e, collect)
    go (some none) e ih = cc (next_open (suc f) s none c e).1
    go (some (some (p, r))) e ih =
        let (q, same, open_rest) = next_open (suc f) s (some (p, r)) c e in
        rw (
          e,
          ih r (
              subst (λ (z : PathSegment × Text). is_closed z.1 ≡ false) (sym (some_inj same))
                open_rest),
          collect,
        )

next_more_fuel :
    (f : ℕ) (s : Text) (o : Option (PathSegment × Text))
    → next f s ≡ some o
    → next (suc f) s ≡ some o
unfolding next
next_more_fuel zero s o h = cc
next_more_fuel (suc f) s o h = go (scan s) refl (next_more_fuel f)
  where
    go :
        (x : Scan)
        → scan s ≡ x
        → ((r : Text) (o : Option (PathSegment × Text))
            → next f r ≡ some o
            → next (suc f) r ≡ some o)
        → next (suc (suc f)) s ≡ some o
    go done e ih = rw (e, next) (rw (e, next) at h)
    go (found p r) e ih = rw (e, next) (rw (e, next) at h)
    go (again r) e ih = rw (e, next) (ih r o (rw (e, next) at h))

pub collect_more_fuel :
    (f : ℕ) (s : Text) (ps : List PathSegment) → collect f s ≡ some ps → collect (suc f) s ≡ some ps
unfolding collect
collect_more_fuel zero s ps h = cc
collect_more_fuel (suc f) s ps h = go (next (suc f) s) refl (collect_more_fuel f)
  where
    go :
        (x : Option (Option (PathSegment × Text)))
        → next (suc f) s ≡ x
        → ((r : Text) (qs : List PathSegment) → collect f r ≡ some qs → collect (suc f) r ≡ some qs)
        → collect (suc (suc f)) s ≡ some ps
    go none e ih = cc (rw (e, collect) at h)
    go (some none) e ih = rw (next_more_fuel (suc f) s none e, collect) (rw (e, collect) at h)
    go (some (some (p, r))) e ih = elim (Option-cases (collect f r)) [
      | inl c ↦ cc (rw (e, c, collect) at h)
      | inr (qs, c) ↦
          rw (next_more_fuel (suc f) s (some (p, r)) e, ih r qs c, collect)
            (rw (e, c, collect) at h)
    ]

-- A path has segments exactly when behind every opening bracket there is a closing one.
pub segments_iff :
    (path : Text) → (is_closed path ≡ true) ↔ ((ps : List PathSegment) × (segments path ≡ some ps))
unfolding segments
segments_iff path = (
  λ c. collect_total (length path + 1) path (omega arith) c,
  λ (ps, e). elim (Bool-cases (is_closed path)) [
    | inl c ↦ c
    | inr c ↦ some-ne-none e (collect_open (length path + 1) path c)
  ],
)

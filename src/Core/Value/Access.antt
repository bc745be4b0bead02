-- ===== src/Core/Value/Access.antt =====
-- crates/ussl-core/src/crdt.rs: what `get_path` reads, without the cutting of the path, and the laws
-- of the maps and vectors that a value holds.
use ussl.Prelude.{
  ◌∙◌, ℕ, zero, suc, ◌+◌, ◌≡◌, refl, List, [], ◌∷◌, Option, none, some, arith, length,
  if◌then◌else◌, Option-cases, inl, inr, some_inj,
}
use ussl.Text.{Text, text_eq, text_eq_iff}
use ussl.Core.Path.{key, index, PathSegment, next, collect, segments, run_collect}
use ussl.Core.Value.{
  Value, Fields, Items, nil, cons, end, field, get_field, insert_field, get_item, set_item, pad,
  child, get_from, get_path, fields_of, items_of, or_null, null,
}

module _ {F : Type 0} where
  -- the entry behind some segments
  unfoldable pub walk : List PathSegment → Value F → Option (Value F)
  walk [] v = some v
  walk (p ∷ ps) v = elim (child p v) [ none ↦ none | some w ↦ walk ps w ]

  -- one segment further
  enter :
      (p : PathSegment) (v : Value F) (qs : List PathSegment)
      (rest : Value F → Option (Option (Value F)))
      → ((w : Value F) → rest w ≡ some (walk qs w))
      → (elim (child p v) [ none ↦ some none | some w ↦ rest w ]) ≡ some (walk (p ∷ qs) v)
  unfolding walk
  enter p v qs rest h = elim (Option-cases (child p v)) [
    | inl c ↦ rw (c, walk)
    | inr (w, c) ↦ rw (c, walk) (h w)
  ]

  get_from-walk :
      (f : ℕ) (s : Text) (ps : List PathSegment) (v : Value F)
      → collect f s ≡ some ps
      → get_from f s v ≡ some (walk ps v)
  unfolding collect get_from walk
  get_from-walk zero s ps v h = cc
  get_from-walk (suc f) s ps v h = go (next (suc f) s) refl (get_from-walk f)
    where
      go :
          (x : Option (Option (PathSegment × Text)))
          → next (suc f) s ≡ x
          → ((r : Text) (qs : List PathSegment) (w : Value F)
              → collect f r ≡ some qs
              → get_from f r w ≡ some (walk qs w))
          → get_from (suc f) s v ≡ some (walk ps v)
      go none e ih = cc (rw (e, collect) at h)
      go (some none) e ih =
          let same : [] ≡ ps = some_inj (rw (e, collect) at h) in rw (← same, e, get_from)
      go (some (some (p, r))) e ih = elim (Option-cases (collect f r)) [
        | inl c ↦ cc (rw (e, c, collect) at h)
        | inr (qs, c) ↦
            let same : p ∷ qs ≡ ps = some_inj (rw (e, c, collect) at h) in
            rw (← same, e, get_from) (enter p v qs (get_from f r) (λ w. ih r qs w c))
      ]

  -- `get_path` reads the entry behind the segments of its path.
  pub get_path-walk :
      (path : Text) (ps : List PathSegment) (v : Value F)
      → segments path ≡ some ps
      → get_path path v ≡ some (walk ps v)
  unfolding segments get_path walk
  get_path-walk [] ps v h =
      let same : [] ≡ ps = some_inj (unfold collect run_collect in h) in rw (← same)
  get_path-walk (c ∷ s) ps v h = get_from-walk (length (c ∷ s) + 1) (c ∷ s) ps v h

  pub get_field-insert_field :
      (k j : Text) (v : Value F) (fs : Fields F)
      → get_field j (insert_field k v fs) ≡ (if text_eq k j then some v else get_field j fs)
  unfolding get_field insert_field
  get_field-insert_field k j v end = refl
  get_field-insert_field k j v (field i w fs) =
      ground
        (arith, text_eq_iff k j, text_eq_iff i k, text_eq_iff i j, get_field-insert_field k j v fs)

  pub get_item-set_item :
      (i : ℕ) (v : Value F) (xs : Items F) → get_item i (set_item i v (pad i xs)) ≡ some v
  unfolding get_item set_item pad
  get_item-set_item zero v nil = refl
  get_item-set_item (suc i) v nil = get_item-set_item i v nil
  get_item-set_item zero v (cons x xs) = refl
  get_item-set_item (suc i) v (cons x xs) = get_item-set_item i v xs

  -- a padded entry is `Null`
  pub or_null-pad :
      (i : ℕ) (xs : Items F) → or_null (get_item i (pad i xs)) ≡ or_null (get_item i xs)
  unfolding get_item pad
  or_null-pad zero nil = refl
  or_null-pad (suc i) nil = or_null-pad i nil ∙ or_null-nil i
    where
      or_null-nil : (i : ℕ) → or_null (get_item {F = F} i nil) ≡ null
      or_null-nil i = refl
  or_null-pad zero (cons x xs) = refl
  or_null-pad (suc i) (cons x xs) = or_null-pad i xs

  abbrev pub follow : List PathSegment → Option (Value F) → Option (Value F)
  follow ps none = none
  follow ps (some w) = walk ps w

  -- What is no object has no fields, and what is no array has no items.
  pub walk-key :
      (k : Text) (ps : List PathSegment) (v : Value F)
      → walk (key k ∷ ps) v ≡ follow ps (get_field k (fields_of v))
  unfolding walk child get_field
  walk-key k ps v = ground arith

  pub walk-index :
      (i : ℕ) (ps : List PathSegment) (v : Value F)
      → walk (index i ∷ ps) v ≡ follow ps (get_item i (items_of v))
  unfolding walk child get_item
  walk-index i ps v = ground arith

  -- An entry that is made up as `Null` has nothing behind it.
  pub walk-or_null :
      (p : PathSegment) (ps : List PathSegment) (o : Option (Value F))
      → walk (p ∷ ps) (or_null o) ≡ follow (p ∷ ps) o
  unfolding walk child
  walk-or_null (key k) ps none = refl
  walk-or_null (index i) ps none = refl
  walk-or_null p ps (some v) = refl

-- ===== src/Core/Value/RoundTrip.antt =====
-- crates/ussl-core/src/crdt.rs: what `set_path` stores is what `get_path` reads.
use ussl.Prelude.{ℕ, ◌≡◌, ◌≢◌, ◌∙◌, ap, refl, List, [], ◌∷◌, some}
use ussl.Text.{Text, text_eq_refl}
use ussl.Core.Path.{PathSegment, key, index, segments, segments_nil}
use ussl.Core.Value.{Value, store, store_all, get_path, set_path}
use ussl.Core.Value.Access.{
  walk, walk-key, walk-index, get_path-walk, get_field-insert_field, get_item-set_item,
}

module _ {F : Type 0} where
  pub walk-store :
      (ps : List PathSegment) (value current : Value F)
      → walk ps (store ps value current) ≡ some value
  unfolding store
  walk-store [] value current = unfold walk in refl
  walk-store (key k ∷ ps) value current =
      simp (walk-key, get_field-insert_field, text_eq_refl) (walk-store ps value _)
  walk-store (index i ∷ ps) value current =
      simp (walk-index, get_item-set_item) (walk-store ps value _)

  pub set_path-store :
      (path : Text) (ps : List PathSegment) (value self : Value F)
      → ps ≢ []
      → segments path ≡ some ps
      → set_path path value self ≡ some (store ps value self)
  set_path-store path [] value self ne h = absurd (ne refl)
  set_path-store [] (p ∷ ps) value self ne h = cc segments_nil
  set_path-store (c ∷ s) (p ∷ ps) value self ne h = unfold set_path store_all in rw (h, set_path)

  -- On a path with a segment `set_path` succeeds, whatever the value held before, and `get_path`
  -- then reads the stored value at that path.
  pub get_path-set_path :
      (path : Text) (p : PathSegment) (ps : List PathSegment) (value self : Value F)
      → segments path ≡ some (p ∷ ps)
      → (new : Value F) × (set_path path value self ≡ some new)
        × (get_path path new ≡ some (some value))
  get_path-set_path path p ps value self h = (
    store (p ∷ ps) value self,
    set_path-store path (p ∷ ps) value self (λ e. cc e) h,
    get_path-walk path (p ∷ ps) _ h ∙ ap some (walk-store (p ∷ ps) value self),
  )

  -- A path of dots alone has no segments: `set_path` reports success and stores nothing.
  pub set_path_no_segments :
      (c : ℕ) (s : Text) (value self : Value F)
      → segments (c ∷ s) ≡ some []
      → set_path (c ∷ s) value self ≡ some self
  unfolding set_path store_all
  set_path_no_segments c s value self h = rw (h, set_path)

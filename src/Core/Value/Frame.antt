-- ===== src/Core/Value/Frame.antt =====
-- crates/ussl-core/src/crdt.rs: what `set_path` leaves alone.
use ussl.Prelude.{◌≡◌, ◌≢◌, ◌∙◌, sym, ap, List, [], ◌∷◌, ◌++◌, Option, some}
use ussl.Text.{Text, text_eq_refl, text_ne}
use ussl.Core.Path.{PathSegment, key, index, segments}
use ussl.Core.Value.{
  Value, get_field, get_item, store, get_path, set_path, fields_of, items_of, or_null,
}
use ussl.Core.Value.Access.{
  walk, walk-key, walk-index, follow, or_null-pad, walk-or_null, get_path-walk,
  get_field-insert_field, get_item-set_item,
}
use ussl.Core.Value.RoundTrip.{set_path-store}

append-ne-nil :
    (common : List PathSegment) (p : PathSegment) (ps : List PathSegment) → common ++ p ∷ ps ≢ []
append-ne-nil [] p ps e = cc
append-ne-nil (n ∷ common) p ps e = cc

module _ {F : Type 0} where
  walk-or_null_append :
      (common : List PathSegment) (p : PathSegment) (ps : List PathSegment) (o : Option (Value F))
      → walk (common ++ p ∷ ps) (or_null o) ≡ follow (common ++ p ∷ ps) o
  walk-or_null_append [] p ps o = walk-or_null p ps o
  walk-or_null_append (n ∷ common) p ps o = walk-or_null n (common ++ p ∷ ps) o

  -- Two paths that part at two keys of one map do not see one another's writes.
  pub walk-store_apart :
      (common : List PathSegment) (k j : Text) (ps qs : List PathSegment) (value current : Value F)
      → k ≢ j
      → walk (common ++ key j ∷ qs) (store (common ++ key k ∷ ps) value current)
        ≡ walk (common ++ key j ∷ qs) current
  unfolding store
  walk-store_apart [] k j ps qs value current h = simp (walk-key, get_field-insert_field, text_ne h)
  walk-store_apart (key n ∷ common) k j ps qs value current h =
      simp (walk-key, get_field-insert_field, text_eq_refl)
        (walk-store_apart common k j ps qs value (or_null (get_field n (fields_of current))) h
          ∙ walk-or_null_append common (key j) qs (get_field n (fields_of current)))
  walk-store_apart (index i ∷ common) k j ps qs value current h =
      simp (walk-index, get_item-set_item, or_null-pad)
        (walk-store_apart common k j ps qs value (or_null (get_item i (items_of current))) h
          ∙ walk-or_null_append common (key j) qs (get_item i (items_of current)))

  -- Writing at one path leaves what another path reads, where the two part at different keys.
  pub get_path-set_path_apart :
      (path other : Text) (common : List PathSegment) (k j : Text) (ps qs : List PathSegment)
      (value self : Value F)
      → segments path ≡ some (common ++ key k ∷ ps)
      → segments other ≡ some (common ++ key j ∷ qs)
      → k ≢ j
      → (new : Value F) × (set_path path value self ≡ some new)
        × (get_path other new ≡ get_path other self)
  unfolding set_path
  get_path-set_path_apart path other common k j ps qs value self hp ho apart = (
    store (common ++ key k ∷ ps) value self,
    set_path-store path (common ++ key k ∷ ps) value self (append-ne-nil common (key k) ps) hp,
    get_path-walk other _ _ ho
        ∙ ap some (walk-store_apart common k j ps qs value self apart)
        ∙ sym (get_path-walk other _ _ ho),
  )

-- ===== src/Core/Value/Convert.antt =====
-- crates/ussl-core/src/crdt.rs: `Value::as_f64`, and the conversions into `Value`. The conversion of an `i64`
-- to an `f64` is the argument `cast`.
use ussl.Prelude.{◌≡◌, refl, Bool, List, [], ◌∷◌, ◌++◌, Option, none, some, length}
use ussl.Prelude.Int.{ℤ}
use ussl.Text.{Text}
use ussl.Core.Path.{index}
use ussl.Core.Value.{
  Value, Items, null, bool, number, string, array, integer, float, nil, cons, child, get_item,
}

module _ {F : Type 0} where
  abbrev as_f64 : (ℤ → F) → Value F → Option F
  as_f64 cast (number (float n)) = some n
  as_f64 cast (number (integer n)) = some (cast n)
  as_f64 cast _ = none

  abbrev default_value : Value F
  default_value = null

  abbrev from_bool : Bool → Value F
  from_bool v = bool v

  abbrev from_i64 : ℤ → Value F
  from_i64 v = number (integer v)

  abbrev from_f64 : F → Value F
  from_f64 v = number (float v)

  abbrev from_text : Text → Value F
  from_text v = string v

  -- `v.into_iter().map(Into::into).collect()`
  unfoldable items_from : {A : Type 0} → (A → Value F) → List A → Items F
  items_from into [] = nil
  items_from into (x ∷ xs) = cons (into x) (items_from into xs)

  abbrev from_list : {A : Type 0} → (A → Value F) → List A → Value F
  from_list into v = array (items_from into v)

  get_item-items_from :
      {A : Type 0} (into : A → Value F) (xs : List A) (y : A) (zs : List A)
      → get_item (length xs) (items_from into (xs ++ y ∷ zs)) ≡ some (into y)
  unfolding items_from get_item
  get_item-items_from into [] y zs = refl
  get_item-items_from into (x ∷ xs) y zs = get_item-items_from into xs y zs

  -- The entry of a converted vector at an index is the converted entry.
  child-from_list :
      {A : Type 0} (into : A → Value F) (xs : List A) (y : A) (zs : List A)
      → child (index (length xs)) (from_list into (xs ++ y ∷ zs)) ≡ some (into y)
  unfolding child
  child-from_list into xs y zs = get_item-items_from into xs y zs

-- ===== src/Core/Value.antt =====
-- crates/ussl-core/src/crdt.rs: `Value`, `Number`, and the reading and writing of a value at a path.
-- `f64` is the type `F`. A map is an association list, in which an insertion replaces.
pub mod Access
pub mod RoundTrip
pub mod Frame
mod Convert
use ussl.Prelude.{
  ℕ, zero, suc, ◌+◌, Bool, true, false, List, [], ◌∷◌, Option, none, some, length, if◌then◌else◌,
}
use ussl.Prelude.Int.{ℤ}
use ussl.Text.{Text, text_eq}
use ussl.Core.Path.{PathSegment, key, index, next, segments}

pub data Number (F : Type 0) : Type 0 where
  integer : ℤ → Number F
  float : F → Number F

mutual
  pub data Value (F : Type 0) : Type 0 where
    null : Value F
    bool : Bool → Value F
    number : Number F → Value F
    string : Text → Value F
    binary : Text → Value F
    array : Items F → Value F
    object : Fields F → Value F

  pub data Items (F : Type 0) : Type 0 where
    nil : Items F
    cons : Value F → Items F → Items F

  pub data Fields (F : Type 0) : Type 0 where
    end : Fields F
    field : Text → Value F → Fields F → Fields F

module _ {F : Type 0} where
  abbrev pub is_null : Value F → Bool
  is_null null = true
  is_null _ = false

  abbrev pub as_bool : Value F → Option Bool
  as_bool (bool b) = some b
  as_bool _ = none

  abbrev pub as_i64 : Value F → Option ℤ
  as_i64 (number (integer n)) = some n
  as_i64 _ = none

  abbrev pub as_str : Value F → Option Text
  as_str (string s) = some s
  as_str _ = none

  abbrev pub as_array : Value F → Option (Items F)
  as_array (array xs) = some xs
  as_array _ = none

  abbrev pub as_object : Value F → Option (Fields F)
  as_object (object fs) = some fs
  as_object _ = none

  -- `HashMap::get` and `HashMap::insert`
  unfoldable pub get_field : Text → Fields F → Option (Value F)
  get_field k end = none
  get_field k (field j v fs) = if text_eq j k then some v else get_field k fs

  unfoldable pub insert_field : Text → Value F → Fields F → Fields F
  insert_field k v end = field k v end
  insert_field k v (field j w fs) =
      if text_eq j k then field k v fs else field j w (insert_field k v fs)

  -- `Vec::get`, and a write at an index that is there
  unfoldable pub get_item : ℕ → Items F → Option (Value F)
  get_item i nil = none
  get_item zero (cons x xs) = some x
  get_item (suc i) (cons x xs) = get_item i xs

  unfoldable pub set_item : ℕ → Value F → Items F → Items F
  set_item i v nil = nil
  set_item zero v (cons x xs) = cons v xs
  set_item (suc i) v (cons x xs) = cons x (set_item i v xs)

  -- `while arr.len() <= idx { arr.push(Value::Null) }`
  unfoldable pub pad : ℕ → Items F → Items F
  pad zero nil = cons null nil
  pad (suc i) nil = cons null (pad i nil)
  pad zero (cons x xs) = cons x xs
  pad (suc i) (cons x xs) = cons x (pad i xs)

  abbrev pub or_null : Option (Value F) → Value F
  or_null none = null
  or_null (some v) = v

  -- one round of the loop of `get_path`
  unfoldable pub child : PathSegment → Value F → Option (Value F)
  child (key k) v = elim (as_object v) [ none ↦ none | some fs ↦ get_field k fs ]
  child (index i) v = elim (as_array v) [ none ↦ none | some xs ↦ get_item i xs ]

  -- The loop of `get_path` cuts the path as it goes, and stops where a value is missing. The outer
  -- `none` means that the fuel ran out.
  unfoldable pub get_from : ℕ → Text → Value F → Option (Option (Value F))
  get_from zero s v = none
  get_from (suc f) s v = elim (next (suc f) s) [
    | none ↦ none
    | some none ↦ some (some v)
    | some (some (p, r)) ↦ elim (child p v) [ none ↦ some none | some w ↦ get_from f r w ]
  ]

  unfoldable pub get_path : Text → Value F → Option (Option (Value F))
  get_path [] v = some (some v)
  get_path (c ∷ s) v = get_from (length (c ∷ s) + 1) (c ∷ s) v

  -- `if !matches!(current, Value::Object(_)) { *current = Value::Object(HashMap::new()) }`
  abbrev pub fields_of : Value F → Fields F
  fields_of (object fs) = fs
  fields_of _ = end

  abbrev pub items_of : Value F → Items F
  items_of (array xs) = xs
  items_of _ = nil

  -- The loop of `set_path` from `current` on: the last segment takes the value, an earlier one goes
  -- on with its entry, which is `Null` where it was missing.
  unfoldable pub store : List PathSegment → Value F → Value F → Value F
  store [] value current = value
  store (key k ∷ ps) value current =
      let map = fields_of current in
      object (insert_field k (store ps value (or_null (get_field k map))) map)
  store (index i ∷ ps) value current =
      let arr = pad i (items_of current) in
      array (set_item i (store ps value (or_null (get_item i arr))) arr)

  -- A path without segments stores nothing.
  unfoldable pub store_all : List PathSegment → Value F → Value F → Value F
  store_all [] value current = current
  store_all (p ∷ ps) value current = store (p ∷ ps) value current

  -- `set_path` always returns `Ok`; `none` means that the path has no segments to collect.
  unfoldable pub set_path : Text → Value F → Value F → Option (Value F)
  set_path [] value self = some value
  set_path (c ∷ s) value self = elim (segments (c ∷ s)) [
    | none ↦ none
    | some ps ↦ some (store_all ps value self)
  ]

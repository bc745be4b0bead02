-- ===== src/TextMap.antt =====
-- `DashMap<String, V>` as an association list. The order in which the map is walked is not fixed by
-- `dashmap`; here it is the order of the list. The shards and their locks are not modelled.
use mathlib.Core.Option
use ussl.Prelude.{
  ◌≡◌, refl, Bool, true, false, ◌||◌, List, [], ◌∷◌, Option, none, some, arith, if◌then◌else◌, any,
}
use ussl.Text.{Text, text_eq, text_eq_iff, text_eq_refl}

abbrev pub TextMap {ℓ} : Type ℓ → Type ℓ
TextMap V = List (Text × V)

abbrev pub holds_key : Text → List Text → Bool
holds_key j ks = any (λ k. text_eq k j) ks

module _ {ℓ} {V : Type ℓ} where
  unfoldable pub lookup : Text → TextMap V → Option V
  lookup k [] = none
  lookup k ((j, v) ∷ m) = if text_eq j k then some v else lookup k m

  unfoldable pub contains_key : Text → TextMap V → Bool
  contains_key k [] = false
  contains_key k ((j, v) ∷ m) = text_eq j k || contains_key k m

  unfoldable pub insert : Text → V → TextMap V → TextMap V
  insert k v [] = (k, v) ∷ []
  insert k v ((j, w) ∷ m) = if text_eq j k then (k, v) ∷ m else (j, w) ∷ insert k v m

  unfoldable pub remove : Text → TextMap V → TextMap V
  remove k [] = []
  remove k ((j, w) ∷ m) = let rest = remove k m in if text_eq j k then rest else (j, w) ∷ rest

  -- `for key in keys { map.remove(&key) }`
  unfoldable pub remove_all : List Text → TextMap V → TextMap V
  remove_all [] m = m
  remove_all (k ∷ ks) m = remove_all ks (remove k m)

  -- `iter_mut()` with an assignment to each value
  unfoldable pub map_values : (V → V) → TextMap V → TextMap V
  map_values f [] = []
  map_values f ((k, v) ∷ m) = (k, f v) ∷ map_values f m

  -- `iter().filter(p)` on the values, and the keys that are left
  unfoldable pub keys_where : (V → Bool) → TextMap V → List Text
  keys_where p [] = []
  keys_where p ((k, v) ∷ m) =
      let rest = keys_where p m in elim (p v) [ true ↦ k ∷ rest | false ↦ rest ]

  -- Each key stands once.
  abbrev pub IsMap : TextMap V → Type ℓ
  IsMap [] = Unit
  IsMap ((k, v) ∷ m) = (lookup k m ≡ none) × IsMap m

  pub lookup-insert :
      (k j : Text) (v : V) (m : TextMap V)
      → lookup j (insert k v m) ≡ (if text_eq k j then some v else lookup j m)
  unfolding lookup insert
  lookup-insert k j v [] = refl
  lookup-insert k j v ((i, w) ∷ m) =
      ground (arith, text_eq_iff k j, text_eq_iff i k, text_eq_iff i j, lookup-insert k j v m)

  pub lookup-remove :
      (k j : Text) (m : TextMap V)
      → lookup j (remove k m) ≡ (if text_eq k j then none else lookup j m)
  unfolding lookup remove
  lookup-remove k j [] = ground arith
  lookup-remove k j ((i, w) ∷ m) =
      ground (arith, text_eq_iff k j, text_eq_iff i k, text_eq_iff i j, lookup-remove k j m)

  pub lookup-map_values :
      (f : V → V) (j : Text) (m : TextMap V) → lookup j (map_values f m) ≡ Option.map f (lookup j m)
  unfolding lookup map_values
  lookup-map_values f j [] = refl
  lookup-map_values f j ((i, w) ∷ m) = ground (arith, lookup-map_values f j m)

  abbrev pub is_some : Option V → Bool
  is_some none = false
  is_some (some v) = true

  pub contains_key-lookup : (k : Text) (m : TextMap V) → contains_key k m ≡ is_some (lookup k m)
  unfolding contains_key lookup
  contains_key-lookup k [] = refl
  contains_key-lookup k ((j, v) ∷ m) = ground (arith, contains_key-lookup k m)

  pub lookup-remove_all :
      (ks : List Text) (j : Text) (m : TextMap V)
      → lookup j (remove_all ks m) ≡ (if holds_key j ks then none else lookup j m)
  unfolding remove_all
  lookup-remove_all [] j m = refl
  lookup-remove_all (k ∷ ks) j m =
      ground (arith, lookup-remove_all ks j (remove k m), lookup-remove k j m)

  abbrev pub satisfies : (V → Bool) → Option V → Bool
  satisfies p none = false
  satisfies p (some v) = p v

  holds_key-none :
      (p : V → Bool) (j : Text) (m : TextMap V)
      → lookup j m ≡ none
      → holds_key j (keys_where p m) ≡ false
  unfolding lookup keys_where
  holds_key-none p j [] h = refl
  holds_key-none p j ((k, v) ∷ m) h = ground (arith, holds_key-none p j m)

  -- In a map the keys of the values that pass a test are those that look up to such a value.
  pub holds_key-keys_where :
      (p : V → Bool) (j : Text) (m : TextMap V)
      → IsMap m
      → holds_key j (keys_where p m) ≡ satisfies p (lookup j m)
  unfolding lookup keys_where
  holds_key-keys_where p j [] h = refl
  holds_key-keys_where p j ((k, v) ∷ m) h =
      ground (arith, holds_key-keys_where p j m, text_eq_iff k j, holds_key-none p j m)

  pub insert-IsMap : (k : Text) (v : V) (m : TextMap V) → IsMap m → IsMap (insert k v m)
  unfolding insert
  insert-IsMap k v [] h = (unfold lookup in refl, tt)
  insert-IsMap k v ((j, w) ∷ m) h =
      ground (arith, insert-IsMap k v m, lookup-insert k j v m, text_eq_iff j k, text_eq_iff k j)

  pub remove-IsMap : (k : Text) (m : TextMap V) → IsMap m → IsMap (remove k m)
  unfolding remove
  remove-IsMap k [] h = tt
  remove-IsMap k ((j, w) ∷ m) h = ground (arith, remove-IsMap k m, lookup-remove k j m)

  pub remove_all-IsMap : (ks : List Text) (m : TextMap V) → IsMap m → IsMap (remove_all ks m)
  unfolding remove_all
  remove_all-IsMap [] m h = h
  remove_all-IsMap (k ∷ ks) m h = remove_all-IsMap ks (remove k m) (remove-IsMap k m h)

  pub map_values-IsMap : (f : V → V) (m : TextMap V) → IsMap m → IsMap (map_values f m)
  unfolding map_values
  map_values-IsMap f [] h = tt
  map_values-IsMap f ((k, v) ∷ m) h =
      (rw (lookup-map_values f k m, h.0) refl, map_values-IsMap f m h.1)

  -- Where no key looks up to a value that passes the test, no value of the map passes it.
  pub keys_where-nil :
      (p : V → Bool) (m : TextMap V)
      → IsMap m
      → ((j : Text) → satisfies p (lookup j m) ≡ false)
      → keys_where p m ≡ []
  unfolding keys_where lookup
  keys_where-nil p [] h none_pass = refl
  keys_where-nil p ((k, v) ∷ m) h none_pass =
      let here : p v ≡ false = ground (arith, none_pass k, text_eq_refl k) in
      let tail = keys_where-nil p m h.1 (λ j. ground (arith, none_pass j, text_eq_iff k j)) in
      ground arith

  pub remove_absent : (k : Text) (m : TextMap V) → lookup k m ≡ none → remove k m ≡ m
  unfolding lookup remove
  remove_absent k [] h = refl
  remove_absent k ((j, v) ∷ m) h = ground (arith, remove_absent k m)

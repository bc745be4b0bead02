-- ===== src/Transport/Metrics/Registering.antt =====
-- crates/ussl-transport/src/metrics.rs: `Metrics::new` does not panic.
use ussl.Prelude.{
  ℕ, ◌≡◌, refl, Bool, true, false, not, ◌&&◌, ◌||◌, List, [], ◌∷◌, some, all, leb, ◌==◌, arith, map,
  Bool-cases, inl, inr, ◌∙◌,
}
use ussl.Text.{Text, text_eq, text_eq→eq, text_eq_refl}
use ussl.TextMap.{holds_key}
use ussl.Transport.Metrics.{
  Prometheus, Metric, name_of, help_of, labels_of, registered, register_all, new_metrics,
}

abbrev is_letter : ℕ → Bool
is_letter c = (leb b'a' c && leb c b'z') || (leb b'A' c && leb c b'Z') || c == b'_'

abbrev is_letter_or_digit : ℕ → Bool
is_letter_or_digit c = is_letter c || (leb b'0' c && leb c b'9')

-- A name as Prometheus has it, without colons, which it allows in names of metrics alone.
abbrev is_name : Text → Bool
is_name [] = false
is_name (c ∷ s) = is_letter c && all is_letter_or_digit s

abbrev is_filled : Text → Bool
is_filled [] = false
is_filled (c ∷ s) = true

-- What `prometheus` documents of a registry: a metric with a name, a help text and labels that it takes
-- is registered, unless its name is registered already.
record RegistryLaws (P : Prometheus) : Type 0 where
  has : Text → P.Registry → Bool
  has-new_registry : (n : Text) → has n P.new_registry ≡ false
  register_lem :
      (name help : Text) (labels : List Text) (r : P.Registry)
      → is_name name ≡ true
      → is_filled help ≡ true
      → all is_name labels ≡ true
      → has name r ≡ false
      → (r' : P.Registry) × (P.register name help labels r ≡ some r')
        × ((n : Text) → has n r' ≡ (text_eq name n || has n r))

-- Whether metrics can be registered in this order, where `p` says which names are taken.
abbrev fits : Metric → Bool
fits m = is_name (name_of m) && is_filled (help_of m) && all is_name (labels_of m)

distinct : List Text → Bool
distinct [] = true
distinct (n ∷ ns) = not (holds_key n ns) && distinct ns

both : (a b : Bool) → (a && b) ≡ true → (a ≡ true) × (b ≡ true)
both a b h = (ground arith, ground arith)

neither : (a b : Bool) → (a || b) ≡ false → (a ≡ false) × (b ≡ false)
neither a b h = (ground arith, ground arith)

not-true : (a : Bool) → not a ≡ true → a ≡ false
not-true a h = ground arith

fits_parts :
    (m : Metric)
    → fits m ≡ true
    → (is_name (name_of m) ≡ true)
      × (is_filled (help_of m) ≡ true)
      × (all is_name (labels_of m) ≡ true)
fits_parts m h =
    let (front, labels) =
      both (is_name (name_of m) && is_filled (help_of m)) (all is_name (labels_of m)) h in
    let (name, help) = both (is_name (name_of m)) (is_filled (help_of m)) front in
    (name, help, labels)

text_eq_sym : (a b : Text) → text_eq b a ≡ false → text_eq a b ≡ false
text_eq_sym a b h = elim (Bool-cases (text_eq a b)) [
  | inl e ↦ let same = text_eq→eq a b e in let whole = text_eq_refl b in cc
  | inr e ↦ e
]

module _ (P : Prometheus) (laws : RegistryLaws P) where
  still_free :
      (name : Text) (r r' : P.Registry)
      → ((n : Text) → laws.has n r' ≡ (text_eq name n || laws.has n r))
      → (ms : List Metric) → holds_key name (map (λ m. name_of m) ms) ≡ false
      → all (λ m. not (laws.has (name_of m) r)) ms ≡ true
      → all (λ m. not (laws.has (name_of m) r')) ms ≡ true
  still_free name r r' same [] d h = refl
  still_free name r r' same (m ∷ ms) d h =
      let (apart, others) =
        neither (text_eq (name_of m) name) (holds_key name (map (λ m. name_of m) ms)) d in
      let (free, frees) =
        both (not (laws.has (name_of m) r)) (all (λ m. not (laws.has (name_of m) r)) ms) h in
      let rest = still_free name r r' same ms others frees in
      let here = not-true (laws.has (name_of m) r) free in
      let other = text_eq_sym name (name_of m) apart in
      let now : laws.has (name_of m) r' ≡ false = same (name_of m) ∙ rw (other, here) refl in
      rw (now, rest) refl

  free_from : (ms : List Metric) → all (λ m. not (laws.has (name_of m) P.new_registry)) ms ≡ true
  free_from [] = refl
  free_from (m ∷ ms) = rw (laws.has-new_registry (name_of m), free_from ms) refl

  register_all_succeeds :
      (ms : List Metric) (r : P.Registry)
      → all fits ms ≡ true
      → distinct (map (λ m. name_of m) ms) ≡ true
      → all (λ m. not (laws.has (name_of m) r)) ms ≡ true
      → (r' : P.Registry) × (register_all P ms r ≡ some r')
        × ((n : Text) → laws.has n r' ≡ (holds_key n (map (λ m. name_of m) ms) || laws.has n r))
  unfolding register_all distinct
  register_all_succeeds [] r f d h = (r, refl, λ n. refl)
  register_all_succeeds (m ∷ ms) r f d h =
      let ns = map (λ m. name_of m) ms in
      let (f0, f1) = both (fits m) (all fits ms) f in
      let (d0, d1) = both (not (holds_key (name_of m) ns)) (distinct ns) d in
      let (h0, h1) =
        both (not (laws.has (name_of m) r)) (all (λ m. not (laws.has (name_of m) r)) ms) h in
      let (named, helped, labelled) = fits_parts m f0 in
      let (r1, e, same) =
        laws.register_lem (name_of m) (help_of m) (labels_of m) r named helped labelled
          (not-true (laws.has (name_of m) r) h0) in
      let (r2, e2, same2) =
        register_all_succeeds ms r1 f1 d1
          (still_free (name_of m) r r1 same ms (not-true (holds_key (name_of m) ns) d0) h1) in
      (r2, rw (e, register_all) e2, λ n. let now = same n in let later = same2 n in ground arith)

  -- If the registry keeps the `RegistryLaws`, all the metrics are registered in `Metrics::new`, which does
  -- not panic, and nothing else is.
  new_metrics_succeeds :
      (r : P.Registry) × (new_metrics P ≡ some r)
      × ((n : Text) → laws.has n r ≡ holds_key n (map (λ m. name_of m) registered))
  unfolding new_metrics
  new_metrics_succeeds =
      let (r, e, same) =
        register_all_succeeds registered P.new_registry refl (unfold distinct text_eq in refl)
          (free_from registered) in
      (r, e, λ n. let now = same n in let free = laws.has-new_registry n in ground arith)

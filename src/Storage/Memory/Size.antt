-- ===== src/Storage/Memory/Size.antt =====
-- crates/ussl-storage/src/memory.rs: the size that is kept is the size of the entries.
use ussl.Prelude.{
  ℕ, ◌+◌, ◌%◌, ◌≡◌, refl, ap, sym, ◌∙◌, [], ◌∷◌, Option, none, some, arith, Option-cases, inl, inr,
}
use ussl.Prelude.Word.{u64_mod, add64, sub64}
use ussl.Text.{Text, text_eq_iff}
use ussl.TextMap.{TextMap, lookup, insert, remove, IsMap, insert-IsMap, remove-IsMap, remove_absent}
use ussl.Core.Document.Meta.{DocumentMeta}
use ussl.Storage.Memory.{
  Json, MemoryStorage, new_storage, entry_size, without_entry, store, delete, stats,
}

-- the bytes of all entries
abbrev pub size_of : TextMap (Text × Text) → ℕ
size_of [] = 0
size_of ((k, e) ∷ m) = entry_size e + size_of m

abbrev old_size : Option (Text × Text) → ℕ
old_size none = 0
old_size (some e) = entry_size e

size_of-insert :
    (k : Text) (e : Text × Text) (m : TextMap (Text × Text))
    → size_of (insert k e m) + old_size (lookup k m) ≡ size_of m + entry_size e
unfolding insert lookup
size_of-insert k e [] = omega arith
size_of-insert k e ((j, w) ∷ m) = ground (arith, size_of-insert k e m)

size_of-remove :
    (k : Text) (m : TextMap (Text × Text))
    → IsMap m
    → size_of (remove k m) + old_size (lookup k m) ≡ size_of m
unfolding remove lookup
size_of-remove k [] h = refl
size_of-remove k ((j, w) ∷ m) h =
    (let rest = size_of-remove k m h.1 in ground (arith, remove_absent k m, text_eq_iff j k))

taken_off :
    (total before after old : ℕ)
    → total ≡ before % u64_mod
    → after + old ≡ before
    → sub64 total old ≡ after % u64_mod
unfolding sub64
taken_off total before after old t e = omega arith

replaced :
    (there : Option (Text × Text)) (total before after new : ℕ)
    → total ≡ before % u64_mod
    → after + old_size there ≡ before + new
    → add64 (without_entry there total) new ≡ after % u64_mod
unfolding add64 sub64
replaced none total before after new t e = omega arith
replaced (some old) total before after new t e = omega arith

module _ (json : Json) where
  -- The storages that calls make of a new one.
  pub data Reach : MemoryStorage → Type 0 where
    start : Reach new_storage
    stored :
        {m : MemoryStorage} (id : Text) (meta : DocumentMeta) (bytes : Text)
        → Reach m
        → Reach (store json id meta bytes m).1
    deleted : {m : MemoryStorage} (id : Text) → Reach m → Reach (delete id m).1

  record IsSized (m : MemoryStorage) : Type 0 where
    unique : IsMap m.entries
    size : m.total_size ≡ size_of m.entries % u64_mod

  store-IsSized :
      (id : Text) (meta : DocumentMeta) (bytes : Text) (m : MemoryStorage)
      → IsSized m
      → IsSized (store json id meta bytes m).1
  unfolding store
  store-IsSized id meta bytes m h = elim (Option-cases (json.to_vec meta)) [
    | inl e ↦ rw (e, store) h
    | inr (meta_bytes, e) ↦
        rw (e, store)
          (record {
            unique = insert-IsMap id (meta_bytes, bytes) m.entries h.unique;
            size =
                replaced (lookup id m.entries) m.total_size _ _ _ h.size
                  (size_of-insert id (meta_bytes, bytes) m.entries);
          })
  ]

  delete-IsSized : (id : Text) (m : MemoryStorage) → IsSized m → IsSized (delete id m).1
  unfolding delete
  delete-IsSized id m h = elim (Option-cases (lookup id m.entries)) [
    | inl e ↦ rw (e, delete) h
    | inr (old, e) ↦
        rw (e, delete)
          (record {
            unique = remove-IsMap id m.entries h.unique;
            size = taken_off m.total_size _ _ _ h.size (
                ap (λ o. size_of (remove id m.entries) + old_size o) (sym e)
                ∙ size_of-remove id m.entries h.unique);
          })
  ]

  Reach-IsSized : (m : MemoryStorage) → Reach m → IsSized m
  Reach-IsSized m start = record { unique = tt; size = refl }
  Reach-IsSized m (stored {m = old} id meta bytes r) =
      store-IsSized id meta bytes old (Reach-IsSized old r)
  Reach-IsSized m (deleted {m = old} id r) = delete-IsSized id old (Reach-IsSized old r)

  -- In every storage that calls can reach, the statistics give the total size of the stored entries,
  -- modulo the width of the counter.
  pub stats-size_of :
      (m : MemoryStorage) → Reach m → (stats m).total_size_bytes ≡ size_of m.entries % u64_mod
  unfolding stats
  stats-size_of m r = (Reach-IsSized m r).size

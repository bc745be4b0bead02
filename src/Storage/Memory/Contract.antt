-- ===== src/Storage/Memory/Contract.antt =====
-- crates/ussl-storage/src/memory.rs: the storage is a map from ids to metadata and bytes.
use ussl.Prelude.{
  ◌≡◌, refl, false, ◌&&◌, [], ◌∷◌, Option, some, arith, if◌then◌else◌, Option-cases, inl, inr, All,
}
use ussl.Text.{Text, text_eq, text_eq_iff}
use ussl.TextMap.{
  TextMap, contains_key, remove, lookup-insert, lookup-remove, contains_key-lookup, holds_key,
}
use ussl.Core.Document.Id.{IsDocumentId, new_id_iff}
use ussl.Core.Document.Meta.{DocumentMeta}
use ussl.Storage.Memory.{
  Json, MemoryStorage, Stored, done, failed, store, load, delete, exists, list, list_ids,
  key_matches,
}

-- What `serde_json` documents of metadata that it has written: it reads them again.
pub record JsonLaws (json : Json) : Type 0 where
  pub from_slice-to_vec :
      (meta : DocumentMeta) (bytes : Text)
      → json.to_vec meta ≡ some bytes
      → json.from_slice bytes ≡ some meta

-- What `load` finds at `j` after a `store`: at the id what was stored, elsewhere what it found before;
-- a `store` that has failed has changed nothing.
abbrev pub Loads :
    Json
    → Text
    → DocumentMeta
    → Text
    → MemoryStorage
    → Text
    → Stored (Unit {0}) × MemoryStorage
    → Type 0
Loads json id meta bytes m j (done u, m') =
    load json j m' ≡ (if text_eq id j then done (some (meta, bytes)) else load json j m)
Loads json id meta bytes m j (failed e, m') = m' ≡ m

-- If `serde_json` keeps the `JsonLaws`: after `store` has returned, `load` finds the metadata and bytes at the id, and what it found before
-- at every other; when it has failed, nothing has changed.
pub load-store :
    (json : Json) (laws : JsonLaws json) (id j : Text) (meta : DocumentMeta) (bytes : Text)
    (m : MemoryStorage)
    → Loads json id meta bytes m j (store json id meta bytes m)
unfolding store load
load-store json laws id j meta bytes m = elim (Option-cases (json.to_vec meta)) [
  | inl e ↦ rw (e, store) refl
  | inr (meta_bytes, e) ↦
      rw (e, store)
        (rw (lookup-insert id j (meta_bytes, bytes) m.entries)
          (let read = laws.from_slice-to_vec meta meta_bytes e in ground arith))
]

-- `delete` says whether `exists` held; afterwards it holds no more, and every other id is as before.
exists-delete :
    (id j : Text) (m : MemoryStorage)
    → ((delete id m).0 ≡ exists id m)
      × (exists j (delete id m).1 ≡ (if text_eq id j then false else exists j m))
unfolding delete exists
exists-delete id j m =
    let here = contains_key-lookup id m.entries in
    let before = contains_key-lookup j m.entries in
    let after = contains_key-lookup j (remove id m.entries) in
    let gone = lookup-remove id j m.entries in (ground arith, ground (arith, text_eq_iff id j))

holds_key-list_ids :
    (pattern : Option Text) (j : Text) (m : TextMap (Text × Text))
    → All (λ e. IsDocumentId e.0) m
    → holds_key j (list_ids pattern m) ≡ contains_key j m && key_matches pattern j
unfolding list_ids contains_key
holds_key-list_ids pattern j [] h = refl
holds_key-list_ids pattern j ((k, e) ∷ m) h =
    rw ((new_id_iff k k).1 (h.0, refl))
      (let rest = holds_key-list_ids pattern j m h.1 in ground (arith, text_eq_iff k j))

-- `list` returns the ids that `exists` holds of and that the pattern matches, and no other, as long as
-- the keys are document ids.
holds_key-list :
    (pattern : Option Text) (j : Text) (m : MemoryStorage)
    → All (λ e. IsDocumentId e.0) m.entries
    → holds_key j (list pattern m) ≡ exists j m && key_matches pattern j
unfolding list exists
holds_key-list pattern j m h = holds_key-list_ids pattern j m.entries h

-- ===== src/Storage/Memory.antt =====
-- crates/ussl-storage/src/memory.rs: the storage in memory, with the types of
-- crates/ussl-storage/src/lib.rs. `serde_json` is the parameter `Json`. A call is one step.
pub mod Contract
pub mod Size
use ussl.Prelude.{
  ℕ, ◌+◌, Bool, true, false, List, [], ◌∷◌, Option, none, some, length, if◌then◌else◌,
}
use ussl.Prelude.Word.{add64, sub64}
use ussl.Text.{Text}
use ussl.TextMap.{TextMap, lookup, contains_key, insert, remove}
use ussl.Core.Error.{Result, ok, err, hang}
use ussl.Core.Document.Id.{new_id}
use ussl.Core.Document.Meta.{DocumentMeta}
use ussl.Core.Manager.Glob.{matches_pattern}

-- `serde_json::to_vec` and `from_slice` on the metadata: a value, or the message of the error
pub record Json : Type 0 where
  pub to_vec : DocumentMeta → Option Text
  pub to_vec_message : DocumentMeta → Text
  pub from_slice : Text → Option DocumentMeta
  pub from_slice_message : Text → Text

pub data StorageError : Type 0 where
  not_found : Text → StorageError
  serialization : Text → StorageError
  io : Text → StorageError
  database : Text → StorageError
  connection : Text → StorageError

-- `Result<T, StorageError>`
pub data Stored {ℓ} (A : Type ℓ) : Type ℓ where
  done : A → Stored A
  failed : StorageError → Stored A

pub record StorageStats : Type 0 where
  pub document_count : ℕ
  pub total_size_bytes : ℕ

pub record MemoryStorage : Type 0 where
  pub entries : TextMap (Text × Text)
  pub total_size : ℕ

abbrev pub new_storage : MemoryStorage
new_storage = record { entries = []; total_size = 0 }

abbrev pub entry_size : Text × Text → ℕ
entry_size e = length e.0 + length e.1

-- The size of the entry that is replaced is taken off.
abbrev pub without_entry : Option (Text × Text) → ℕ → ℕ
without_entry none total = total
without_entry (some e) total = sub64 total (entry_size e)

module _ (json : Json) where
  unfoldable pub store :
      Text → DocumentMeta → Text → MemoryStorage → Stored (Unit {0}) × MemoryStorage
  store id meta bytes m = elim (json.to_vec meta) [
    | none ↦ (failed (serialization (json.to_vec_message meta)), m)
    | some meta_bytes ↦ (
      done tt,
      record {
        entries = insert id (meta_bytes, bytes) m.entries;
        total_size =
            add64 (without_entry (lookup id m.entries) m.total_size)
              (entry_size (meta_bytes, bytes));
      },
    )
  ]

  abbrev pub load_entry : Option (Text × Text) → Stored (Option (DocumentMeta × Text))
  load_entry none = done none
  load_entry (some (meta_bytes, bytes)) = elim (json.from_slice meta_bytes) [
    | none ↦ failed (serialization (json.from_slice_message meta_bytes))
    | some meta ↦ done (some (meta, bytes))
  ]

  unfoldable pub load : Text → MemoryStorage → Stored (Option (DocumentMeta × Text))
  load id m = load_entry (lookup id m.entries)

unfoldable pub delete : Text → MemoryStorage → Bool × MemoryStorage
delete id m = elim (lookup id m.entries) [
  | none ↦ (false, m)
  | some e ↦ (
    true,
    record { entries = remove id m.entries; total_size = sub64 m.total_size (entry_size e) },
  )
]

abbrev pub key_matches : Option Text → Text → Bool
key_matches none key = true
key_matches (some pattern) key = matches_pattern key pattern

-- `if let Ok(id) = DocumentId::new(key) { ids.push(id) }`
abbrev pub push_id : Result Text → List Text → List Text
push_id (ok id) ids = id ∷ ids
push_id (err e) ids = ids
push_id hang ids = ids

unfoldable pub list_ids : Option Text → TextMap (Text × Text) → List Text
list_ids pattern [] = []
list_ids pattern ((key, e) ∷ m) =
    let rest = list_ids pattern m in
    if key_matches pattern key then push_id (new_id key) rest else rest

unfoldable pub list : Option Text → MemoryStorage → List Text
list pattern m = list_ids pattern m.entries

unfoldable pub exists : Text → MemoryStorage → Bool
exists id m = contains_key id m.entries

unfoldable pub stats : MemoryStorage → StorageStats
stats m = record { document_count = length m.entries; total_size_bytes = m.total_size }

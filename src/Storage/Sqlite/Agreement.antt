-- ===== src/Storage/Sqlite/Agreement.antt =====
-- crates/ussl-storage/src/sqlite.rs and memory.rs: the two storages answer alike.
use mathlib.Core.Option
use ussl.Prelude.{
  ◌∙◌, ℕ, ◌≡◌, ◌≢◌, refl, ap, sym, Bool, List, [], ◌∷◌, Option, none, some, All, ltb, if◌then◌else◌,
  arith, Option-cases, inl, inr, ◌⊎◌,
}
use ussl.Text.{Text, text_eq, text_eq_iff}
use ussl.TextMap.{lookup, insert, is_some, lookup-insert, lookup-remove, contains_key-lookup}
use ussl.Core.Document.Meta.{DocumentMeta}
use ussl.Storage.Memory as Memory
use ussl.Storage.Memory.{
  Json, StorageError, database, Stored, done, failed, MemoryStorage, load_entry,
}
use ussl.Storage.Sqlite as Sqlite
use ussl.Storage.Sqlite.{Rusqlite, upsert, delete_row, entry_outputs, with_id, load_row}
use ussl.Storage.Sql.{
  Query, answered, refused, id, meta, bytes, column, equals, delete_from, Client, SqlLaws,
}
use ussl.Storage.Sql.Entries.{
  entry-first_row, count_rows-entry, entry_at, entry_at-delete, entry_at-insert,
}

pub data Operation : Type 0 where
  store : Text → DocumentMeta → Text → Operation
  load : Text → Operation
  delete : Text → Operation
  exists : Text → Operation

-- What an operation returns.
pub data Outcome : Type 0 where
  stored : Stored (Unit {0}) → Outcome
  loaded : Stored (Option (DocumentMeta × Text)) → Outcome
  found : Stored Bool → Outcome

module _ (json : Json) where
  abbrev pub run_memory : Operation → MemoryStorage → Outcome × MemoryStorage
  run_memory (store key x content) m =
      let (r, m') = Memory.store json key x content m in (stored r, m')
  run_memory (load key) m = (loaded (Memory.load json key m), m)
  run_memory (delete key) m = let (r, m') = Memory.delete key m in (found (done r), m')
  run_memory (exists key) m = (found (done (Memory.exists key m)), m)

  unfoldable pub memory_outcomes : List Operation → MemoryStorage → List Outcome
  memory_outcomes [] m = []
  memory_outcomes (o ∷ os) m = let (r, m') = run_memory o m in r ∷ memory_outcomes os m'

module _ (R : Rusqlite) (json : Json) where
  abbrev pub run_sqlite : Operation → R.client.Conn → Outcome × R.client.Conn
  run_sqlite (store key x content) c =
      let (r, c') = Sqlite.store R json key x content c in (stored r, c')
  run_sqlite (load key) c = (loaded (Sqlite.load R json key c), c)
  run_sqlite (delete key) c = let (r, c') = Sqlite.delete R key c in (found r, c')
  run_sqlite (exists key) c = (found (Sqlite.exists R key c), c)

  unfoldable pub sqlite_outcomes : List Operation → R.client.Conn → List Outcome
  sqlite_outcomes [] c = []
  sqlite_outcomes (o ∷ os) c = let (r, c') = run_sqlite o c in r ∷ sqlite_outcomes os c'

-- No statement failed.
abbrev pub IsWorking : Outcome → Type 0
IsWorking (stored r) = (message : Text) → r ≢ failed (database message)
IsWorking (loaded r) = (message : Text) → r ≢ failed (database message)
IsWorking (found r) = (message : Text) → r ≢ failed (database message)

pub Query-cases {ℓ} :
    {A : Type ℓ} (q : Query A)
    → ((a : A) × (q ≡ answered a)) ⊎ ((message : Text) × (q ≡ refused message))
Query-cases (answered a) = inl (a, refl)
Query-cases (refused message) = inr (message, refl)

pub delete_found :
    (key : Text) (m : MemoryStorage) → (Memory.delete key m).0 ≡ is_some (lookup key m.entries)
unfolding Memory.delete
delete_found key m = elim (Option-cases (lookup key m.entries)) [
  | inl e ↦ rw (e, Memory.delete) refl
  | inr (x, e) ↦ rw (e, Memory.delete) refl
]

pub lookup-delete :
    (key j : Text) (m : MemoryStorage)
    → lookup j (Memory.delete key m).1.entries
      ≡ (if text_eq key j then none else lookup j m.entries)
unfolding Memory.delete
lookup-delete key j m = elim (Option-cases (lookup key m.entries)) [
  | inl e ↦ ground (arith, text_eq_iff key j)
  | inr (x, e) ↦ rw (e, Memory.delete) (lookup-remove key j m.entries)
]

-- The table holds the same entries as the storage in memory.
abbrev pub Agrees : (C : Client) → SqlLaws C → C.Conn → MemoryStorage → Type 0
Agrees C laws c m = (j : Text) → entry_at C laws c j ≡ lookup j m.entries

module _ (C : Client) (laws : SqlLaws C) where
  -- An insertion of the entry on both sides.
  pub insert-Agrees :
      (key meta_bytes content j : Text) (c : C.Conn) (m : MemoryStorage) (o : Option (Text × Text))
      → Agrees C laws c m
      → o ≡ (if text_eq key j then some (meta_bytes, content) else entry_at C laws c j)
      → o ≡ lookup j (insert key (meta_bytes, content) m.entries)
  insert-Agrees key meta_bytes content j c m o a e =
      e ∙ rw (lookup-insert key j (meta_bytes, content) m.entries, a j) refl

  -- A deletion on both sides.
  pub delete-Agrees :
      (key : Text) (c : C.Conn) (m : MemoryStorage) (n : ℕ)
      → Agrees C laws c m
      → (C.execute (delete_from (equals id 1)) (key ∷ []) c).0 ≡ answered n
      → (ltb 0 n ≡ (Memory.delete key m).0)
        × Agrees C laws
            (C.execute (delete_from (equals id 1)) (key ∷ []) c).1
            (Memory.delete key m).1
  delete-Agrees key c m n a q =
      let gone = λ (j : Text). entry_at-delete C laws key j c n q in
      (
        (gone key).0 ∙ ap (λ o. is_some o) (a key) ∙ sym (delete_found key m),
        λ j.
            (gone j).1
            ∙ ap (λ o. if text_eq key j then none else o) (a j)
            ∙ sym (lookup-delete key j m),
      )

module _ (R : Rusqlite) (json : Json) (laws : SqlLaws R.client) where
  load_row-entry :
      (o : Option (Text × Text))
      → load_row json (Option.map (λ e. (column meta, e.0) ∷ (column bytes, e.1) ∷ []) o)
        ≡ load_entry json o
  load_row-entry none = refl
  load_row-entry (some (x, y)) = refl

  step-Agrees :
      (o : Operation) (c : R.client.Conn) (m : MemoryStorage)
      → Agrees R.client laws c m
      → IsWorking (run_sqlite R json o c).0
      → ((run_sqlite R json o c).0 ≡ (run_memory json o m).0)
        × Agrees R.client laws (run_sqlite R json o c).1 (run_memory json o m).1
  unfolding Sqlite.store Sqlite.load Sqlite.delete Sqlite.exists Memory.store Memory.load
      Memory.exists
  step-Agrees (store key x content) c m a ok = elim (Option-cases (json.to_vec x)) [
    | inl e ↦ rw (e, Sqlite.store, Memory.store) (refl, a)
    | inr (meta_bytes, e) ↦
        elim (Query-cases (R.client.execute upsert (key ∷ meta_bytes ∷ content ∷ []) c).0) [
          | inl (n, q) ↦
              rw (e, q, Sqlite.store, Memory.store)
                (
                  refl,
                  λ j. insert-Agrees R.client laws key meta_bytes content j c m _ a (
                      entry_at-insert R.client laws _ _ key meta_bytes content j c n refl refl refl
                        (λ r. (refl, refl, refl)) q),
                )
          | inr (message, q) ↦ absurd (ok message (rw (e, q, Sqlite.store) refl))
        ]
  ]
  step-Agrees (load key) c m a ok =
      elim (Query-cases (R.client.query_row entry_outputs with_id (key ∷ []) c)) [
        | inl (row, q) ↦ rw q (
          ap (λ r. loaded r)
              (ap (load_row json) (
                  laws.queried_row entry_outputs with_id (key ∷ []) c row q
                  ∙ entry-first_row key (laws.table c))
                ∙ load_row-entry (entry_at R.client laws c key)
                ∙ ap (load_entry json) (a key)),
          a,
        )
        | inr (message, q) ↦ absurd (ok message (rw q refl))
      ]
  step-Agrees (delete key) c m a ok =
      elim (Query-cases (R.client.execute delete_row (key ∷ []) c).0) [
        | inl (n, q) ↦
            let (took, after) = delete-Agrees R.client laws key c m n a q in
            (rw q (ap (λ b. found (done b)) took), after)
        | inr (message, q) ↦ absurd (ok message (rw q refl))
      ]
  step-Agrees (exists key) c m a ok =
      elim (Query-cases (R.client.query_count with_id (key ∷ []) c)) [
        | inl (n, q) ↦
            let counted =
              ap (ltb 0) (laws.queried_count with_id (key ∷ []) c n q)
              ∙ count_rows-entry key (laws.table c)
              ∙ ap (λ o. is_some o) (a key)
              ∙ sym (contains_key-lookup key m.entries) in
            rw q (ap (λ b. found (done b)) counted, a)
        | inr (message, q) ↦ absurd (ok message (rw q refl))
      ]

  -- If each statement that succeeds does to the table what it means in SQL, the table holds the same
  -- entries as the storage in memory, and no statement fails: any sequence of `store`, `load`, `delete`
  -- and `exists` returns the same results, errors of `serde_json` included, from the storage in SQLite
  -- as from the one in memory.
  pub sqlite_outcomes_lem :
      (os : List Operation) (c : R.client.Conn) (m : MemoryStorage)
      → Agrees R.client laws c m
      → All IsWorking (sqlite_outcomes R json os c)
      → sqlite_outcomes R json os c ≡ memory_outcomes json os m
  unfolding sqlite_outcomes memory_outcomes
  sqlite_outcomes_lem [] c m a h = refl
  sqlite_outcomes_lem (o ∷ os) c m a h =
      let step = step-Agrees o c m a h.0 in
      let rest =
        sqlite_outcomes_lem os (run_sqlite R json o c).1 (run_memory json o m).1 step.1 h.1 in
      rw (step.0, rest) refl

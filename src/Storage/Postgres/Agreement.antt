-- ===== src/Storage/Postgres/Agreement.antt =====
-- crates/ussl-storage/src/postgres.rs and memory.rs: the two storages answer alike.
use mathlib.Core.Option
use ussl.Prelude.{
  ◌≡◌, refl, ap, sym, ◌∙◌, List, [], ◌∷◌, Option, none, some, All, Option-cases, inl, inr,
}
use ussl.Text.{Text, codes}
use ussl.TextMap.{is_some, contains_key-lookup}
use ussl.Storage.Memory as Memory
use ussl.Storage.Memory.{Json, MemoryStorage, done, load_entry}
use ussl.Storage.Sql.{meta, bytes, column, literal, SqlLaws}
use ussl.Storage.Sql.Entries.{entry-first_row, is_some-first_row, entry_at, entry_at-insert}
use ussl.Storage.Sqlite.Agreement.{
  Operation, store, load, delete, exists, Outcome, stored, loaded, found, IsWorking, run_memory,
  memory_outcomes, Query-cases, Agrees, insert-Agrees, delete-Agrees,
}
use ussl.Storage.Postgres as Postgres
use ussl.Storage.Postgres.{Sqlx, upsert, delete_row, entry_outputs, with_id, load_row, get_named}

module _ (S : Sqlx) (json : Json) where
  abbrev pub run_postgres : Operation → S.client.Conn → Outcome × S.client.Conn
  run_postgres (store key x content) c =
      let (r, c') = Postgres.store S json key x content c in (stored r, c')
  run_postgres (load key) c = (loaded (Postgres.load S json key c), c)
  run_postgres (delete key) c = let (r, c') = Postgres.delete S key c in (found r, c')
  run_postgres (exists key) c = (found (Postgres.exists S key c), c)

  unfoldable pub postgres_outcomes : List Operation → S.client.Conn → List Outcome
  postgres_outcomes [] c = []
  postgres_outcomes (o ∷ os) c = let (r, c') = run_postgres o c in r ∷ postgres_outcomes os c'

module _ (S : Sqlx) (json : Json) (laws : SqlLaws S.client) where
  load_row-entry :
      (o : Option (Text × Text))
      → load_row json (Option.map (λ e. (column meta, e.0) ∷ (column bytes, e.1) ∷ []) o)
        ≡ load_entry json o
  unfolding get_named
  load_row-entry none = refl
  load_row-entry (some (x, y)) = refl

  step-Agrees :
      (o : Operation) (c : S.client.Conn) (m : MemoryStorage)
      → Agrees S.client laws c m
      → IsWorking (run_postgres S json o c).0
      → ((run_postgres S json o c).0 ≡ (run_memory json o m).0)
        × Agrees S.client laws (run_postgres S json o c).1 (run_memory json o m).1
  unfolding Postgres.store Postgres.load Postgres.delete Postgres.exists Memory.store Memory.load
      Memory.exists
  step-Agrees (store key x content) c m a ok = elim (Option-cases (json.to_vec x)) [
    | inl e ↦ rw (e, Postgres.store, Memory.store) (refl, a)
    | inr (meta_bytes, e) ↦
        elim (Query-cases (S.client.execute upsert (key ∷ meta_bytes ∷ content ∷ []) c).0) [
          | inl (n, q) ↦
              rw (e, q, Postgres.store, Memory.store)
                (
                  refl,
                  λ j. insert-Agrees S.client laws key meta_bytes content j c m _ a (
                      entry_at-insert S.client laws _ _ key meta_bytes content j c n refl refl refl
                        (λ r. (refl, refl, refl)) q),
                )
          | inr (message, q) ↦ absurd (ok message (rw (e, q, Postgres.store) refl))
        ]
  ]
  step-Agrees (load key) c m a ok =
      elim (Query-cases (S.client.query_row entry_outputs with_id (key ∷ []) c)) [
        | inl (row, q) ↦ rw q (
          ap (λ r. loaded r)
              (ap (load_row json) (
                  laws.queried_row entry_outputs with_id (key ∷ []) c row q
                  ∙ entry-first_row key (laws.table c))
                ∙ load_row-entry (entry_at S.client laws c key)
                ∙ ap (load_entry json) (a key)),
          a,
        )
        | inr (message, q) ↦ absurd (ok message (rw q refl))
      ]
  step-Agrees (delete key) c m a ok =
      elim (Query-cases (S.client.execute delete_row (key ∷ []) c).0) [
        | inl (n, q) ↦
            let (took, after) = delete-Agrees S.client laws key c m n a q in
            (rw q (ap (λ b. found (done b)) took), after)
        | inr (message, q) ↦ absurd (ok message (rw q refl))
      ]
  step-Agrees (exists key) c m a ok =
      let one = literal (codes "1") ∷ [] in
      elim (Query-cases (S.client.query_row one with_id (key ∷ []) c)) [
        | inl (row, q) ↦
            let selected =
              ap (λ o. is_some o) (laws.queried_row one with_id (key ∷ []) c row q)
              ∙ is_some-first_row key one (laws.table c)
              ∙ ap (λ o. is_some o) (a key)
              ∙ sym (contains_key-lookup key m.entries) in
            rw q (ap (λ b. found (done b)) selected, a)
        | inr (message, q) ↦ absurd (ok message (rw q refl))
      ]

  -- If each statement that succeeds does to the table what it means in SQL, the table holds the same
  -- entries as the storage in memory, and no statement fails: any sequence of `store`, `load`, `delete`
  -- and `exists` returns the same results, errors of `serde_json` included, from the storage in
  -- PostgreSQL as from the one in memory.
  pub postgres_outcomes_lem :
      (os : List Operation) (c : S.client.Conn) (m : MemoryStorage)
      → Agrees S.client laws c m
      → All IsWorking (postgres_outcomes S json os c)
      → postgres_outcomes S json os c ≡ memory_outcomes json os m
  unfolding postgres_outcomes memory_outcomes
  postgres_outcomes_lem [] c m a h = refl
  postgres_outcomes_lem (o ∷ os) c m a h =
      let step = step-Agrees o c m a h.0 in
      let rest =
        postgres_outcomes_lem os (run_postgres S json o c).1 (run_memory json o m).1 step.1 h.1 in
      rw (step.0, rest) refl

-- ===== src/Storage/Postgres.antt =====
-- crates/ussl-storage/src/postgres.rs: the storage in a database of PostgreSQL. `sqlx` and PostgreSQL
-- are not part of the repository: a pool, which takes the statements of the source, is the parameter
-- `Sqlx`. A call is one step.
pub mod Agreement
use ussl.Prelude.{ℕ, Bool, List, [], ◌∷◌, ◌++◌, Option, none, some, map, ltb, if◌then◌else◌}
use ussl.Text.{Text, codes, ends_with, starts_with}
use ussl.TextMap.{is_some}
use ussl.Core.Document.Meta.{DocumentMeta}
use ussl.Storage.Sql.{
  Query, answered, refused, Column, id, meta, bytes, updated_at, same_column, Expression, param,
  excluded, now, Condition, always, equals, do_update, Statement, insert_into, delete_from, Output,
  column, literal, Fields, Client,
}
use ussl.Storage.Memory.{Json, serialization, Stored, done, failed, StorageStats, load_entry}
use ussl.Storage.Sqlite.{queried, valid_ids, trim_end_stars, trim_start_stars}

-- A pool: the statements on the table, the `SELECT` of the ids that are `LIKE` a text, that are equal to
-- one, and of all, and `SELECT COALESCE(SUM(LENGTH(meta) + LENGTH(data)), 0)`.
pub record Sqlx : Type 1 where
  pub client : Client
  pub select_like : Text → client.Conn → Query (List Text)
  pub select_equal : Text → client.Conn → Query (List Text)
  pub select_all : client.Conn → Query (List Text)
  pub sum_sizes : client.Conn → Query ℕ

-- the `INSERT` of `store`; its time is `NOW()`
abbrev pub upsert : Statement
upsert =
    insert_into ((id, param 1) ∷ (meta, param 2) ∷ (bytes, param 3) ∷ (updated_at, now) ∷ [])
      (do_update ((meta, excluded meta) ∷ (bytes, excluded bytes) ∷ (updated_at, now) ∷ []))

-- `SELECT meta, data FROM documents WHERE id = $1`
abbrev pub entry_outputs : List Output
entry_outputs = column meta ∷ column bytes ∷ []

abbrev pub with_id : Condition
with_id = equals id 1

-- `DELETE FROM documents WHERE id = $1`
abbrev pub delete_row : Statement
delete_row = delete_from with_id

-- `row.get(name)`, which panics where there is no such column
unfoldable pub get_named : Column → Fields → Option Text
get_named k [] = none
get_named k ((column j, value) ∷ fields) =
    let rest = get_named k fields in if same_column k j then some value else rest
get_named k ((literal s, value) ∷ fields) = get_named k fields

abbrev pub both : Option Text → Option Text → Query (Option (Text × Text))
both (some meta_bytes) (some content) = answered (some (meta_bytes, content))
both _ _ = refused (codes "no column found for name")

abbrev pub row_of : Option Fields → Query (Option (Text × Text))
row_of none = answered none
row_of (some row) = both (get_named meta row) (get_named bytes row)

abbrev pub load_row : Json → Option Fields → Stored (Option (DocumentMeta × Text))
load_row json row = queried (load_entry json) (row_of row)

module _ (S : Sqlx) (json : Json) where
  abbrev pub written : Query ℕ × S.client.Conn → Stored (Unit {0}) × S.client.Conn
  written (q, c) = (queried (λ n. done tt) q, c)

  unfoldable pub store :
      Text → DocumentMeta → Text → S.client.Conn → Stored (Unit {0}) × S.client.Conn
  store key m content c = elim (json.to_vec m) [
    | none ↦ (failed (serialization (json.to_vec_message m)), c)
    | some meta_bytes ↦ written (S.client.execute upsert (key ∷ meta_bytes ∷ content ∷ []) c)
  ]

  unfoldable pub load : Text → S.client.Conn → Stored (Option (DocumentMeta × Text))
  load key c = queried (load_row json) (S.client.query_row entry_outputs with_id (key ∷ []) c)

module _ (S : Sqlx) where
  abbrev pub taken : Query ℕ × S.client.Conn → Stored Bool × S.client.Conn
  taken (q, c) = (queried (λ affected. done (ltb 0 affected)) q, c)

  unfoldable pub delete : Text → S.client.Conn → Stored Bool × S.client.Conn
  delete key c = taken (S.client.execute delete_row (key ∷ []) c)

  -- the rows that `list` asks for
  unfoldable pub rows : Option Text → S.client.Conn → Query (List Text)
  rows none c = S.select_all c
  rows (some p) c =
      if ends_with (codes "*") p
      then S.select_like (trim_end_stars p ++ codes "%") c
      else if starts_with (codes "*") p
      then S.select_like (b'%' ∷ trim_start_stars p) c
      else S.select_equal p c

  unfoldable pub list : Option Text → S.client.Conn → Stored (List Text)
  list pattern c = queried (λ ids. done (valid_ids (map (λ key. some key) ids))) (rows pattern c)

  -- `SELECT 1 FROM documents WHERE id = $1`
  unfoldable pub exists : Text → S.client.Conn → Stored Bool
  exists key c =
      queried (λ row. done (is_some row))
        (S.client.query_row (literal (codes "1") ∷ []) with_id (key ∷ []) c)

  -- the count first; the sum is asked for when it has been read
  unfoldable pub stats : S.client.Conn → Stored StorageStats
  stats c =
      queried
        (λ count.
          queried (λ size. done (record { document_count = count; total_size_bytes = size }))
            (S.sum_sizes c))
        (S.client.query_count always [] c)

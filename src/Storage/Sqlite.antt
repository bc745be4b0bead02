-- ===== src/Storage/Sqlite.antt =====
-- crates/ussl-storage/src/sqlite.rs: the storage in a database of SQLite. `rusqlite` and SQLite are not
-- part of the repository: a connection, which takes the statements of the source, is the parameter
-- `Rusqlite`. The lock is not modelled: a call is one step.
pub mod Agreement
use ussl.Prelude.{
  ℕ, Bool, true, false, List, [], ◌∷◌, ◌++◌, Option, none, some, ltb, ◌==◌, if◌then◌else◌,
}
use ussl.Text.{Text, codes, ends_with, starts_with}
use ussl.Core.Document.Id.{new_id}
use ussl.Core.Document.Meta.{DocumentMeta}
use ussl.Storage.Sql.{
  Query, answered, refused, Column, id, meta, bytes, updated_at, Expression, param, excluded, now,
  Condition, always, equals, do_update, Statement, insert_into, delete_from, Output, column, Fields,
  Client,
}
use ussl.Storage.Memory.{
  Json, StorageError, serialization, database, Stored, done, failed, StorageStats, load_entry,
  push_id,
}

-- A connection: the statements on the table, the text of a `SELECT` of ids, where a row may not be
-- read, and `SELECT COALESCE(SUM(LENGTH(meta) + LENGTH(data)), 0)`.
pub record Rusqlite : Type 1 where
  pub client : Client
  pub select_ids : Text → client.Conn → Query (List (Option Text))
  pub sum_sizes : client.Conn → Query ℕ

-- the `INSERT` of `store`; its time is `strftime('%s', 'now') * 1000`
abbrev pub upsert : Statement
upsert = insert_into ((id, param 1) ∷ (meta, param 2) ∷ (bytes, param 3) ∷ (updated_at, now) ∷ []) (
    do_update
      ((meta, excluded meta) ∷ (bytes, excluded bytes) ∷ (updated_at, excluded updated_at) ∷ []))

-- `SELECT meta, data FROM documents WHERE id = ?1`
abbrev pub entry_outputs : List Output
entry_outputs = column meta ∷ column bytes ∷ []

abbrev pub with_id : Condition
with_id = equals id 1

-- `DELETE FROM documents WHERE id = ?1`
abbrev pub delete_row : Statement
delete_row = delete_from with_id

-- `map_err(|e| StorageError::Database(e.to_string()))?`
abbrev pub queried {ℓ κ} : {A : Type ℓ} {B : Type κ} → (A → Stored B) → Query A → Stored B
queried f (answered a) = f a
queried f (refused message) = failed (database message)

-- `prefix.replace('\'', "''")`
unfoldable pub double_quotes : Text → Text
double_quotes [] = []
double_quotes (c ∷ s) = let rest = double_quotes s in if c == b'\'' then c ∷ c ∷ rest else c ∷ rest

-- `trim_start_matches('*')` and `trim_end_matches('*')`
unfoldable pub trim_start_stars : Text → Text
trim_start_stars [] = []
trim_start_stars (c ∷ s) = let rest = trim_start_stars s in if c == b'*' then rest else c ∷ s

abbrev without_star : ℕ → Text → Text
without_star c [] = if c == b'*' then [] else c ∷ []
without_star c (d ∷ s) = c ∷ d ∷ s

unfoldable pub trim_end_stars : Text → Text
trim_end_stars [] = []
trim_end_stars (c ∷ s) = without_star c (trim_end_stars s)

-- the statement that `list` runs
unfoldable pub list_sql : Option Text → Text
list_sql none = codes "SELECT id FROM documents ORDER BY updated_at DESC"
list_sql (some p) =
    if ends_with (codes "*") p
    then codes "SELECT id FROM documents WHERE id LIKE '"
      ++ double_quotes (trim_end_stars p)
      ++ codes "%' ORDER BY updated_at DESC"
    else if starts_with (codes "*") p
    then codes "SELECT id FROM documents WHERE id LIKE '%"
      ++ double_quotes (trim_start_stars p)
      ++ codes "' ORDER BY updated_at DESC"
    else codes "SELECT id FROM documents WHERE id = '"
      ++ double_quotes p
      ++ codes "' ORDER BY updated_at DESC"

-- the two calls of `filter_map`
unfoldable pub valid_ids : List (Option Text) → List Text
valid_ids [] = []
valid_ids (none ∷ rows) = valid_ids rows
valid_ids (some key ∷ rows) = push_id (new_id key) (valid_ids rows)

-- `row.get(0)` and `row.get(1)`
abbrev pub row_of : Option Fields → Query (Option (Text × Text))
row_of none = answered none
row_of (some ((o, meta_bytes) ∷ (p, content) ∷ rest)) = answered (some (meta_bytes, content))
row_of (some _) = refused (codes "Invalid column index")

abbrev pub load_row : Json → Option Fields → Stored (Option (DocumentMeta × Text))
load_row json row = queried (load_entry json) (row_of row)

module _ (R : Rusqlite) (json : Json) where
  abbrev pub written : Query ℕ × R.client.Conn → Stored (Unit {0}) × R.client.Conn
  written (q, c) = (queried (λ n. done tt) q, c)

  unfoldable pub store :
      Text → DocumentMeta → Text → R.client.Conn → Stored (Unit {0}) × R.client.Conn
  store key m content c = elim (json.to_vec m) [
    | none ↦ (failed (serialization (json.to_vec_message m)), c)
    | some meta_bytes ↦ written (R.client.execute upsert (key ∷ meta_bytes ∷ content ∷ []) c)
  ]

  unfoldable pub load : Text → R.client.Conn → Stored (Option (DocumentMeta × Text))
  load key c = queried (load_row json) (R.client.query_row entry_outputs with_id (key ∷ []) c)

module _ (R : Rusqlite) where
  abbrev pub taken : Query ℕ × R.client.Conn → Stored Bool × R.client.Conn
  taken (q, c) = (queried (λ affected. done (ltb 0 affected)) q, c)

  unfoldable pub delete : Text → R.client.Conn → Stored Bool × R.client.Conn
  delete key c = taken (R.client.execute delete_row (key ∷ []) c)

  unfoldable pub list : Option Text → R.client.Conn → Stored (List Text)
  list pattern c = queried (λ rows. done (valid_ids rows)) (R.select_ids (list_sql pattern) c)

  unfoldable pub exists : Text → R.client.Conn → Stored Bool
  exists key c = queried (λ count. done (ltb 0 count)) (R.client.query_count with_id (key ∷ []) c)

  unfoldable pub stats : R.client.Conn → Stored StorageStats
  stats c =
      queried
        (λ count.
          queried (λ size. done (record { document_count = count; total_size_bytes = size }))
            (R.sum_sizes c))
        (R.client.query_count always [] c)

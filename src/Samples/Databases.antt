-- ===== src/Samples/Databases.antt =====
-- A table in place of the databases.
use ussl.Prelude.{ℕ, ◌+◌, ◌≡◌, refl, sym, List, [], ◌∷◌, some, map, length, arith}
use ussl.Text.{Text, codes, text_eq}
use ussl.TextMap.{lookup, insert, remove}
use ussl.Storage.Memory.{new_storage}
use ussl.Storage.Sql.{
  answered, id, meta, bytes, Row, Client, SqlLaws, run, insert_row, first_row, count_rows,
}
use ussl.Storage.Sql.Entries.{entry, answered_inj}
use ussl.Storage.Sqlite as Sqlite
use ussl.Storage.Sqlite.{Rusqlite}
use ussl.Storage.Sqlite.Agreement.{
  Operation, store, load, delete, exists, sqlite_outcomes, memory_outcomes, sqlite_outcomes_lem,
}
use ussl.Storage.Postgres as Postgres
use ussl.Storage.Postgres.{Sqlx}
use ussl.Storage.Postgres.Agreement.{postgres_outcomes, postgres_outcomes_lem}
use ussl.Samples.Services.{fields, meta as sample_meta}

abbrev sizes : List Row → ℕ
sizes [] = 0
sizes (r ∷ rows) = length (r meta) + length (r bytes) + sizes rows

abbrev clock : Text
clock = codes "1000"

-- a connection that is the table itself
abbrev table : Client
table = record {
  Conn = List Row;
  execute = λ s ps rows. run clock ps s rows;
  query_row = λ outputs condition ps rows. answered (first_row outputs condition ps rows);
  query_count = λ condition ps rows. answered (count_rows condition ps rows);
}

table_laws : SqlLaws table
table_laws = record {
  table = λ rows. rows;
  clock = λ rows. clock;
  executed = λ s ps rows n e. (e, refl);
  queried_row = λ outputs condition ps rows o e. sym (answered_inj _ _ e);
  queried_count = λ condition ps rows n e. sym (answered_inj _ _ e);
}

abbrev ids : List Row → List Text
ids rows = map (λ r. r id) rows

-- A statement that asks for ids is not read: every id is returned.
abbrev sqlite : Rusqlite
sqlite = record {
  client = table;
  select_ids = λ sql rows. answered (map (λ key. some key) (ids rows));
  sum_sizes = λ rows. answered (sizes rows);
}

abbrev postgres : Sqlx
postgres = record {
  client = table;
  select_like = λ p rows. answered (ids rows);
  select_equal = λ p rows. answered (ids rows);
  select_all = λ rows. answered (ids rows);
  sum_sizes = λ rows. answered (sizes rows);
}

abbrev calls : List Operation
calls =
    store (codes "a") sample_meta (codes "x")
    ∷ store (codes "a") sample_meta (codes "y")
    ∷ exists (codes "a")
    ∷ load (codes "a")
    ∷ delete (codes "a")
    ∷ load (codes "a")
    ∷ []

sqlite_outcomes_lem_example :
    sqlite_outcomes sqlite fields calls [] ≡ memory_outcomes fields calls new_storage
unfolding sqlite_outcomes Sqlite.store Sqlite.load Sqlite.delete Sqlite.exists lookup insert remove
    text_eq table_laws entry run insert_row first_row count_rows
sqlite_outcomes_lem_example =
    sqlite_outcomes_lem sqlite fields table_laws calls [] new_storage (λ j. refl)
      (
        λ s e. ground arith,
        (
          λ s e. ground arith,
          (
            λ s e. ground arith,
            (λ s e. ground arith, (λ s e. ground arith, (λ s e. ground arith, tt))),
          ),
        ),
      )

postgres_outcomes_lem_example :
    postgres_outcomes postgres fields calls [] ≡ memory_outcomes fields calls new_storage
unfolding postgres_outcomes Postgres.store Postgres.load Postgres.delete Postgres.exists lookup
    insert remove text_eq table_laws entry run insert_row first_row count_rows Postgres.get_named
postgres_outcomes_lem_example =
    postgres_outcomes_lem postgres fields table_laws calls [] new_storage (λ j. refl)
      (
        λ s e. ground arith,
        (
          λ s e. ground arith,
          (
            λ s e. ground arith,
            (λ s e. ground arith, (λ s e. ground arith, (λ s e. ground arith, tt))),
          ),
        ),
      )

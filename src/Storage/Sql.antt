-- ===== src/Storage/Sql.antt =====
-- The statements of SQL that crates/ussl-storage/src/sqlite.rs and postgres.rs run on the table
-- `documents`, and what they mean. Which of them succeed, and when, is up to the database, which is not
-- part of the repository: a connection is the parameter `Client`.
pub mod Entries
use ussl.Prelude.{
  ℕ, ◌≡◌, zero, suc, Bool, true, false, not, List, [], ◌∷◌, Option, none, some, length, map, retain,
  if◌then◌else◌,
}
use ussl.Text.{Text, codes, text_eq}

-- What a statement comes to: its result, or the message of the error.
pub data Query {ℓ} (A : Type ℓ) : Type ℓ where
  answered : A → Query A
  refused : Text → Query A

-- The columns of the table, of which `id` is the primary key; `bytes` is the column `data`.
pub data Column : Type 0 where
  id meta bytes updated_at : Column

abbrev pub same_column : Column → Column → Bool
same_column id id = true
same_column meta meta = true
same_column bytes bytes = true
same_column updated_at updated_at = true
same_column _ _ = false

-- `?n` or `$n`, a value of the row that was to be inserted, and the time of the database
pub data Expression : Type 0 where
  param : ℕ → Expression
  excluded : Column → Expression
  now : Expression

-- `WHERE column = ?n`, or no condition
pub data Condition : Type 0 where
  always : Condition
  equals : Column → ℕ → Condition

-- `ON CONFLICT(id)`
pub data Conflict : Type 0 where
  abort do_nothing : Conflict
  do_update : List (Column × Expression) → Conflict

pub data Statement : Type 0 where
  insert_into : List (Column × Expression) → Conflict → Statement
  delete_from : Condition → Statement

-- what a `SELECT` asks for
pub data Output : Type 0 where
  column : Column → Output
  literal : Text → Output

abbrev pub Row : Type 0
Row = Column → Text

abbrev pub Fields : Type 0
Fields = List (Output × Text)

-- the parameter with this number, from 1 on
abbrev pub nth_param : ℕ → List Text → Text
nth_param n [] = []
nth_param zero (p ∷ ps) = []
nth_param (suc zero) (p ∷ ps) = p
nth_param (suc (suc n)) (p ∷ ps) = nth_param (suc n) ps

abbrev pub evaluate : Text → List Text → Row → Expression → Text
evaluate clock ps new (param n) = nth_param n ps
evaluate clock ps new (excluded k) = new k
evaluate clock ps new now = clock

abbrev pub assign : (Expression → Text) → List (Column × Expression) → Row → Row
assign value [] r = r
assign value ((k, e) ∷ columns) r =
    assign value columns (λ j. if same_column j k then value e else r j)

abbrev pub holds : List Text → Condition → Row → Bool
holds ps always r = true
holds ps (equals k n) r = text_eq (r k) (nth_param n ps)

-- The new row meets the old one of its id, and what stands behind that.
abbrev pub on_conflict : Text → List Text → Conflict → Row → Row → List Row → Query ℕ × List Row
on_conflict clock ps abort new r rows = (refused (codes "UNIQUE constraint failed"), r ∷ rows)
on_conflict clock ps do_nothing new r rows = (answered 0, r ∷ rows)
on_conflict clock ps (do_update columns) new r rows =
    (answered 1, assign (evaluate clock ps new) columns r ∷ rows)

unfoldable pub insert_row : Text → List Text → Conflict → Row → List Row → Query ℕ × List Row
insert_row clock ps c new [] = (answered 1, new ∷ [])
insert_row clock ps c new (r ∷ rows) =
    let (q, rest) = insert_row clock ps c new rows in
    if text_eq (r id) (new id) then on_conflict clock ps c new r rows else (q, r ∷ rest)

-- How many rows a statement takes, and the table after it. A column without a value is empty.
unfoldable pub run : Text → List Text → Statement → List Row → Query ℕ × List Row
run clock ps (insert_into columns c) rows =
    insert_row clock ps c (assign (evaluate clock ps (λ k. [])) columns (λ k. [])) rows
run clock ps (delete_from condition) rows = (
  answered (length (retain (holds ps condition) rows)),
  retain (λ r. not (holds ps condition r)) rows,
)

abbrev pub output_of : Row → Output → Text
output_of r (column k) = r k
output_of r (literal s) = s

abbrev pub selected_fields : List Output → Row → Fields
selected_fields outputs r = map (λ o. (o, output_of r o)) outputs

-- the first row that is selected
unfoldable pub first_row : List Output → Condition → List Text → List Row → Option Fields
first_row outputs condition ps [] = none
first_row outputs condition ps (r ∷ rows) =
    let rest = first_row outputs condition ps rows in
    if holds ps condition r then some (selected_fields outputs r) else rest

-- `SELECT COUNT(*)`
unfoldable pub count_rows : Condition → List Text → List Row → ℕ
count_rows condition ps rows = length (retain (holds ps condition) rows)

pub record Client : Type 1 where
  pub Conn : Type 0
  pub execute : Statement → List Text → Conn → Query ℕ × Conn
  pub query_row : List Output → Condition → List Text → Conn → Query (Option Fields)
  pub query_count : Condition → List Text → Conn → Query ℕ

-- A statement that succeeds does to the table what it means; its time is that of the database.
pub record SqlLaws (C : Client) : Type 0 where
  pub table : C.Conn → List Row
  pub clock : C.Conn → Text
  pub executed :
      (s : Statement) (ps : List Text) (c : C.Conn) (n : ℕ)
      → (C.execute s ps c).0 ≡ answered n
      → ((run (clock c) ps s (table c)).0 ≡ answered n)
        × (table (C.execute s ps c).1 ≡ (run (clock c) ps s (table c)).1)
  pub queried_row :
      (outputs : List Output) (condition : Condition) (ps : List Text) (c : C.Conn)
      (o : Option Fields)
      → C.query_row outputs condition ps c ≡ answered o
      → o ≡ first_row outputs condition ps (table c)
  pub queried_count :
      (condition : Condition) (ps : List Text) (c : C.Conn) (n : ℕ)
      → C.query_count condition ps c ≡ answered n
      → n ≡ count_rows condition ps (table c)

-- ===== src/Storage/Sql/Entries.antt =====
-- What the statements on the table `documents` do to the entry under an id: its metadata and its bytes.
use mathlib.Core.Option
use ussl.Prelude.{
  ℕ, ◌≡◌, refl, ap, sym, ◌∙◌, Bool, true, false, not, List, [], ◌∷◌, Option, none, some, retain,
  ltb, arith, if◌then◌else◌, Bool-cases, inl, inr,
}
use ussl.Text.{Text, text_eq, text_eq_iff}
use ussl.TextMap.{is_some}
use ussl.Storage.Sql.{
  refused, Client, SqlLaws, run, delete_from, insert_into, Query, answered, Column, id, meta, bytes,
  Expression, do_update, Row, Output, column, evaluate, assign, holds, equals, insert_row,
  first_row, count_rows,
}

-- the metadata and the bytes of the first row with an id
unfoldable pub entry : List Row → Text → Option (Text × Text)
entry [] j = none
entry (r ∷ rows) j =
    let rest = entry rows j in if text_eq (r id) j then some (r meta, r bytes) else rest

answer_or {ℓ} : {A : Type ℓ} → A → Query A → A
answer_or d (answered a) = a
answer_or d (refused message) = d

pub answered_inj {ℓ} : {A : Type ℓ} (a b : A) → answered a ≡ answered b → a ≡ b
unfolding answer_or
answered_inj a b e = ap (answer_or a) e

text_ne_at : (a b j : Text) → text_eq a b ≡ false → text_eq a j ≡ true → text_eq b j ≡ false
text_ne_at a b j n e = elim (Bool-cases (text_eq b j)) [
  | inl k ↦
      let same = (text_eq_iff a j).0 e ∙ sym ((text_eq_iff b j).0 k) in
      let equal = (text_eq_iff a b).1 same in cc
  | inr k ↦ k
]

other_id {ℓ} :
    {A : Type ℓ} (b : Bool) (x y z : A)
    → (if b then x else y) ≡ (if b then x else if b then z else y)
other_id true x y z = refl
other_id false x y z = refl

retain-cons :
    (p : Row → Bool) (r : Row) (rows : List Row)
    → p r ≡ true
    → retain p (r ∷ rows) ≡ r ∷ retain p rows
retain-cons p r rows e = rw (e, retain) refl

retain-cons_skip :
    (p : Row → Bool) (r : Row) (rows : List Row) → p r ≡ false → retain p (r ∷ rows) ≡ retain p rows
retain-cons_skip p r rows e = rw (e, retain) refl

other_none {ℓ} : {A : Type ℓ} (b : Bool) → ◌≡◌ {A = Option A} none (if b then none else none)
other_none true = refl
other_none false = refl

module _ (clock : Text) (ps : List Text) (columns : List (Column × Expression)) (new : Row) where
  -- An insertion whose conflict takes the metadata and the bytes over, and leaves the id.
  pub entry-insert_row :
      ((r : Row)
        → let r' = assign (evaluate clock ps new) columns r in
          (r' id ≡ r id) × (r' meta ≡ new meta) × (r' bytes ≡ new bytes))
      → (rows : List Row) (j : Text)
      → entry (insert_row clock ps (do_update columns) new rows).1 j
        ≡ (if text_eq (new id) j then some (new meta, new bytes) else entry rows j)
  unfolding insert_row entry
  entry-insert_row h [] j = refl
  entry-insert_row h (r ∷ rows) j =
      let rest = entry-insert_row h rows j in
      let (named, metas, datas) = h r in
      elim (Bool-cases (text_eq (r id) (new id))) [
        | inl e ↦
            rw (e, insert_row)
              (rw (named, metas, datas, (text_eq_iff (r id) (new id)).0 e)
                (other_id (text_eq (new id) j) (some (new meta, new bytes)) (entry rows j)
                  (some (r meta, r bytes))))
        | inr e ↦
            rw (e, insert_row)
              (elim (Bool-cases (text_eq (r id) j)) [
                | inl k ↦ rw (k, text_ne_at (r id) (new id) j e k) refl
                | inr k ↦ rw k rest
              ])
      ]

module _ (key : Text) where
  abbrev at_key : List Text
  at_key = key ∷ []

  pub entry-first_row :
      (rows : List Row)
      → first_row (column meta ∷ column bytes ∷ []) (equals id 1) at_key rows
        ≡ Option.map (λ e. (column meta, e.0) ∷ (column bytes, e.1) ∷ []) (entry rows key)
  unfolding first_row entry
  entry-first_row [] = refl
  entry-first_row (r ∷ rows) =
      let rest = entry-first_row rows in
      elim (Bool-cases (text_eq (r id) key)) [ inl e ↦ rw e refl | inr e ↦ rw e rest ]

  -- Some row is selected by an id exactly where there is an entry under it.
  pub is_some-first_row :
      (outputs : List Output) (rows : List Row)
      → is_some (first_row outputs (equals id 1) at_key rows) ≡ is_some (entry rows key)
  unfolding first_row entry
  is_some-first_row outputs [] = refl
  is_some-first_row outputs (r ∷ rows) =
      let rest = is_some-first_row outputs rows in
      elim (Bool-cases (text_eq (r id) key)) [ inl e ↦ rw e refl | inr e ↦ rw e rest ]

  pub count_rows-entry :
      (rows : List Row) → ltb 0 (count_rows (equals id 1) at_key rows) ≡ is_some (entry rows key)
  unfolding count_rows entry
  count_rows-entry [] = refl
  count_rows-entry (r ∷ rows) =
      let rest = count_rows-entry rows in
      let selected = holds at_key (equals id 1) in
      elim (Bool-cases (text_eq (r id) key)) [
        | inl e ↦ rw (e, retain-cons selected r rows e) (ground arith)
        | inr e ↦ rw (e, retain-cons_skip selected r rows e) rest
      ]

  pub entry-delete :
      (rows : List Row) (j : Text)
      → entry (retain (λ r. not (holds at_key (equals id 1) r)) rows) j
        ≡ (if text_eq key j then none else entry rows j)
  unfolding entry
  entry-delete [] j = other_none (text_eq key j)
  entry-delete (r ∷ rows) j =
      let rest = entry-delete rows j in
      let stays = λ (x : Row). not (holds at_key (equals id 1) x) in
      elim (Bool-cases (text_eq (r id) key)) [
        | inl e ↦
            rw (retain-cons_skip stays r rows (ap not e), (text_eq_iff (r id) key).0 e)
              (rest ∙ other_id (text_eq key j) none (entry rows j) (some (r meta, r bytes)))
        | inr e ↦ rw (retain-cons stays r rows (ap not e)) (elim (Bool-cases (text_eq (r id) j)) [
          | inl k ↦ rw (k, text_ne_at (r id) key j e k) refl
          | inr k ↦ rw k rest
        ])
      ]

module _ (C : Client) (laws : SqlLaws C) where
  -- the entry under an id in the table of a connection
  abbrev pub entry_at : C.Conn → Text → Option (Text × Text)
  entry_at c j = entry (laws.table c) j

  pub entry_at-delete :
      (key j : Text) (c : C.Conn) (n : ℕ)
      → (C.execute (delete_from (equals id 1)) (key ∷ []) c).0 ≡ answered n
      → (ltb 0 n ≡ is_some (entry_at c key))
        × (entry_at (C.execute (delete_from (equals id 1)) (key ∷ []) c).1 j
            ≡ (if text_eq key j then none else entry_at c j))
  unfolding run count_rows
  entry_at-delete key j c n e =
      let (count, after) = laws.executed (delete_from (equals id 1)) (key ∷ []) c n e in
      (
        ap (ltb 0) (sym (answered_inj _ _ count)) ∙ count_rows-entry key (laws.table c),
        ap (λ rows. entry rows j) after ∙ entry-delete key (laws.table c) j,
      )

  pub entry_at-insert :
      (columns changes : List (Column × Expression)) (key meta_bytes content j : Text) (c : C.Conn)
      (n : ℕ)
      → let ps = key ∷ meta_bytes ∷ content ∷ [] in
        let s = insert_into columns (do_update changes) in
        let new = assign (evaluate (laws.clock c) ps (λ k. [])) columns (λ k. []) in
        (new id ≡ key)
        → (new meta ≡ meta_bytes)
        → (new bytes ≡ content)
        → ((r : Row)
            → let r' = assign (evaluate (laws.clock c) ps new) changes r in
              (r' id ≡ r id) × (r' meta ≡ new meta) × (r' bytes ≡ new bytes))
        → (C.execute s ps c).0 ≡ answered n
        → entry_at (C.execute s ps c).1 j
          ≡ (if text_eq key j then some (meta_bytes, content) else entry_at c j)
  unfolding run
  entry_at-insert columns changes key meta_bytes content j c n named metas datas takes e =
      let ps = key ∷ meta_bytes ∷ content ∷ [] in
      let s = insert_into columns (do_update changes) in
      let new = assign (evaluate (laws.clock c) ps (λ k. [])) columns (λ k. []) in
      let (count, after) = laws.executed s ps c n e in
      ap (λ rows. entry rows j) after
      ∙ entry-insert_row (laws.clock c) ps changes new takes (laws.table c) j
      ∙ rw (named, metas, datas) refl

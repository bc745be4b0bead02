-- ===== src/Core/Document/Sync.antt =====
-- crates/ussl-core/src/document.rs: the state that is exchanged with peers, and compaction.
use ussl.Prelude.{ℕ, ◌-◌, Bool, true, false, [], ◌∷◌, none, some, length, leb, ltb, if◌then◌else◌}
use ussl.Prelude.Word.{add64}
use ussl.Text.{Text}
use ussl.Core.Error.{Result, ok, err, hang, crdt, restore_error}
use ussl.Core.Strategy.{Strategy, crdt_text}
use ussl.Core.Document.Meta.{touch}
use ussl.Core.Document.State.{
  Yrs, Document, compaction_threshold, compaction_size_threshold, count_update,
}

module _ (Y : Yrs) where
  -- The new Yrs document: the text alone for a text document, the applied state for another.
  abbrev pub fresh_doc : Strategy → Y.Doc → Result Y.Doc
  fresh_doc crdt_text doc = ok (Y.insert 0 (Y.get_string doc) Y.new_doc)
  fresh_doc s doc =
      let old_state = Y.encode_state_as_update doc in
      elim (Y.decode old_state) [
        | none ↦ err (crdt (Y.decode_message old_state))
        | some u ↦ ok (Y.apply_update u Y.new_doc)
      ]

module _ (Y : Yrs) {F : Type 0} where
  -- `Document::encode_state`: the state of the Yrs document
  unfoldable pub encode_state : Document Y F → Text
  encode_state d = Y.encode_state_as_update d.ydoc

  unfoldable pub state_size : Document Y F → ℕ
  unfolding encode_state
  state_size d = length (encode_state d)

  -- `Document::apply_update`
  unfoldable pub apply_update : ℕ → Text → Document Y F → Result (Unit {0}) × Document Y F
  apply_update now update d = elim (Y.decode update) [
    | none ↦ (err (crdt (Y.decode_message update)), d)
    | some u ↦ (ok tt, count_update Y now d (Y.apply_update u d.ydoc))
  ]

  -- `Document::apply_state`; an empty state is let through
  unfoldable pub apply_state : ℕ → Text → Document Y F → Result (Unit {0}) × Document Y F
  apply_state now [] d = (ok tt, d)
  apply_state now (c ∷ state) d = elim (Y.decode (c ∷ state)) [
    | none ↦ (err (restore_error (Y.decode_message (c ∷ state))), d)
    | some u ↦ (ok tt, record d { ydoc = Y.apply_update u d.ydoc; meta = touch now d.meta })
  ]

  -- `Document::should_compact`
  unfoldable pub should_compact : Document Y F → Bool
  unfolding state_size
  should_compact d =
      if leb compaction_threshold d.update_count
      then true
      else if ltb 100 d.update_count
      then leb compaction_size_threshold (state_size d)
      else false

  abbrev pub replace_doc : Result Y.Doc → Document Y F → Result ℕ × Document Y F
  replace_doc (ok doc) d =
      let d' = record d {
        ydoc = doc;
        update_count = 0;
        compaction_count = add64 d.compaction_count 1;
      } in
      let old_size = length (Y.encode_state_as_update d.ydoc) in
      let new_size = length (Y.encode_state_as_update doc) in
      (ok (if ltb new_size old_size then old_size - new_size else 0), d')
  replace_doc (err e) d = (err e, d)
  replace_doc hang d = (hang, d)

  -- `Document::compact`
  unfoldable pub compact : Document Y F → Result ℕ × Document Y F
  compact d = replace_doc (fresh_doc Y d.meta.strategy d.ydoc) d

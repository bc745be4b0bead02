-- ===== src/Core/Manager/Restored.antt =====
-- crates/ussl-core/src/manager.rs: what a backup brings back when it is restored.
use ussl.Prelude.{
  ℕ, ◌+◌, ◌^◌, ◌<◌, ◌≡◌, ◌≢◌, refl, ap, ◌∙◌, true, false, List, [], ◌∷◌, Option, none, some, arith,
  length, All, if◌then◌else◌, Bool-cases, inl, inr,
}
use ussl.Prelude.Word.{add64}
use ussl.Text.{Text, text_eq_iff}
use ussl.TextMap.{TextMap, lookup, insert, IsMap, lookup-insert}
use ussl.Core.Error.{ok, err, ◌>>=◌, document_not_found}
use ussl.Core.Strategy.{
  Strategy, lww, crdt_counter, crdt_set, crdt_map, crdt_text, parse_strategy-name_of,
}
use ussl.Core.Value.{Value, string, object, end}
use ussl.Core.Document.Id.{IsDocumentId, new_id_iff}
use ussl.Core.Document.Meta.{new_meta, touch, ttl_remaining}
use ussl.Core.Document.State.{Yrs, Document, new_document, get_by}
use ussl.Core.Document.State as Doc
use ussl.Core.Document.Sync.{encode_state, apply_state}
use ussl.Core.Manager.State.{DocumentManager, doc_expired, get, new_manager}
use ussl.Core.Manager.Remaining.{left_of, positive_ttl-ttl_remaining}
use ussl.Core.Manager.Backup.{
  DocumentBackup, positive_ttl, backup_document, backup_from, restore_document, backup,
  restore_from, restore,
}

-- What `yrs` documents of an encoded state: it is never empty, it is decoded again, and applied to a
-- new document it brings the text back.
pub record SyncLaws (Y : Yrs) : Type 0 where
  pub encoded : Y.Doc → Y.Update
  pub state_filled : (d : Y.Doc) → Y.encode_state_as_update d ≢ []
  pub decode-state : (d : Y.Doc) → Y.decode (Y.encode_state_as_update d) ≡ some (encoded d)
  pub get_string-apply_update :
      (d : Y.Doc) → Y.get_string (Y.apply_update (encoded d) Y.new_doc) ≡ Y.get_string d

module _ {F : Type 0} where
  abbrev pub restored_value : Strategy → Text → Value F
  restored_value crdt_text text = string text
  restored_value s text = object end

module _ {Y : Yrs} {F : Type 0} where
  abbrev pub AllNamed : TextMap (Document Y F) → Type 0
  AllNamed docs = All (λ e. IsDocumentId e.0) docs

module _ (Y : Yrs) (laws : SyncLaws Y) {F : Type 0} where
  -- The document that a restored entry becomes: under the same id, with the strategy, what is left of
  -- the time to live and the Yrs state of the old one, and an empty tree; it is new, and its version
  -- counts the state that was applied.
  abbrev pub revived : ℕ → ℕ → Text → Document Y F → Document Y F
  revived now later key doc = record {
    meta = record {
      id = key;
      strategy = doc.meta.strategy;
      created_at = later;
      updated_at = later;
      version = 2;
      ttl = left_of now doc.meta.created_at doc.meta.ttl;
    };
    ydoc = Y.apply_update (laws.encoded doc.ydoc) Y.new_doc;
    lww_data = object end;
    update_count = 0;
    compaction_count = 0;
  }

  -- the same, with the operations of the metadata that make it
  abbrev restored_as : ℕ → ℕ → Text → Document Y F → Document Y F
  restored_as now later key doc = record {
    meta =
        touch later
          (new_meta later key doc.meta.strategy (positive_ttl (ttl_remaining now doc.meta)));
    ydoc = Y.apply_update (laws.encoded doc.ydoc) Y.new_doc;
    lww_data = object end;
    update_count = 0;
    compaction_count = 0;
  }

  restored_as-revived :
      (now later : ℕ) (key : Text) (doc : Document Y F)
      → now < 2 ^ 64
      → restored_as now later key doc ≡ revived now later key doc
  unfolding touch new_meta add64
  restored_as-revived now later key doc h =
      ap
        (λ ttl. record {
          meta = record {
            id = key;
            strategy = doc.meta.strategy;
            created_at = later;
            updated_at = later;
            version = 2;
            ttl = ttl;
          };
          ydoc = Y.apply_update (laws.encoded doc.ydoc) Y.new_doc;
          lww_data = object end;
          update_count = 0;
          compaction_count = 0;
        })
        (positive_ttl-ttl_remaining now doc.meta h)

  apply_state-encode :
      (now : ℕ) (d old : Document Y F)
      → apply_state Y now (Y.encode_state_as_update old.ydoc) d ≡ (
        ok tt,
        record d { ydoc = Y.apply_update (laws.encoded old.ydoc) d.ydoc; meta = touch now d.meta },
      )
  unfolding apply_state touch
  apply_state-encode now d old = go (Y.encode_state_as_update old.ydoc) refl
    where
      go :
          (s : Text)
          → Y.encode_state_as_update old.ydoc ≡ s
          → apply_state Y now s d ≡ (
            ok tt,
            record d {
              ydoc = Y.apply_update (laws.encoded old.ydoc) d.ydoc;
              meta = touch now d.meta;
            },
          )
      go [] e = absurd (laws.state_filled old.ydoc e)
      go (c ∷ s) e = rw (rw e at (laws.decode-state old.ydoc), apply_state)

  restore_document-backup_document :
      (now later : ℕ) (key : Text) (doc : Document Y F)
      → IsDocumentId key
      → restore_document Y {F = F} later (backup_document Y now key doc)
        ≡ ok (restored_as now later key doc)
  unfolding restore_document backup_document encode_state
  restore_document-backup_document now later key doc h =
      rw ((new_id_iff key key).1 (h, refl), parse_strategy-name_of, apply_state-encode)
        (unfold new_document in refl)

  get_by-restored_as :
      (s : Strategy) (now later : ℕ) (key : Text) (path : Option Text) (doc : Document Y F)
      → path ≡ none
      → get_by Y s path (restored_as now later key doc)
        ≡ ok (restored_value s (Y.get_string doc.ydoc))
  get_by-restored_as crdt_text now later key path doc n =
      ap (λ t. ok (string t)) (laws.get_string-apply_update doc.ydoc)
  get_by-restored_as crdt_counter now later key path doc n = refl
  get_by-restored_as crdt_set now later key path doc n = refl
  get_by-restored_as lww now later key path doc n = rw n
  get_by-restored_as crdt_map now later key path doc n = rw n

  -- A document under a valid id that comes out of a backup has its text if it is a text document and
  -- `yrs` keeps the `SyncLaws`. Of every other document all values are lost: it reads as the empty
  -- object, whatever it held.
  pub get-restore_document :
      (now later : ℕ) (key : Text) (doc : Document Y F)
      → IsDocumentId key
      → (restore_document Y {F = F} later (backup_document Y now key doc) >>= Doc.get Y none)
        ≡ ok (restored_value doc.meta.strategy (Y.get_string doc.ydoc))
  unfolding Doc.get touch new_meta
  get-restore_document now later key doc named =
      rw (restore_document-backup_document now later key doc named)
        (get_by-restored_as doc.meta.strategy now later key none doc refl)

  -- what stands at a key after the entry of an old document, if it had one, was restored
  abbrev pub brought_back :
      ℕ → ℕ → Text → Option (Document Y F) → Option (Document Y F) → Option (Document Y F)
  brought_back now later j none there = there
  brought_back now later j (some d) there =
      if doc_expired now d then there else some (revived now later j d)

  skipped :
      (now later : ℕ) (key j : Text) (doc : Document Y F) (docs : TextMap (Document Y F))
      (there : Option (Document Y F))
      → doc_expired now doc ≡ true
      → lookup key docs ≡ none
      → brought_back now later j (lookup j docs) there
        ≡ brought_back now later j (lookup j ((key, doc) ∷ docs)) there
  unfolding lookup
  skipped now later key j doc docs there e u = ground (arith, text_eq_iff key j)

  kept :
      (now later : ℕ) (key j : Text) (doc : Document Y F) (docs m : TextMap (Document Y F))
      → doc_expired now doc ≡ false
      → lookup key docs ≡ none
      → brought_back now later j
          (lookup j docs)
          (lookup j (insert key (revived now later key doc) m))
        ≡ brought_back now later j (lookup j ((key, doc) ∷ docs)) (lookup j m)
  unfolding lookup
  kept now later key j doc docs m e u =
      rw (lookup-insert key j (revived now later key doc) m) (ground (arith, text_eq_iff key j))

module _ (Y : Yrs) {F : Type 0} where
  backup_from_skip :
      (now : ℕ) (key : Text) (doc : Document Y F) (docs : TextMap (Document Y F))
      → doc_expired now doc ≡ true
      → backup_from Y now ((key, doc) ∷ docs) ≡ backup_from Y now docs
  unfolding backup_from
  backup_from_skip now key doc docs e = rw (e, backup_from)

  backup_from_keep :
      (now : ℕ) (key : Text) (doc : Document Y F) (docs : TextMap (Document Y F))
      → doc_expired now doc ≡ false
      → backup_from Y now ((key, doc) ∷ docs)
        ≡ backup_document Y now key doc ∷ backup_from Y now docs
  unfolding backup_from
  backup_from_keep now key doc docs e = rw (e, backup_from)

module _ (Y : Yrs) (laws : SyncLaws Y) {F J : Type 0} (now later : ℕ) (clock : now < 2 ^ 64) where
  record Brings (bs : List DocumentBackup) (docs : TextMap (Document Y F)) (restored : ℕ)
      (m : DocumentManager Y F J) : Type 0 where
    count : (restore_from Y later bs restored m).0 ≡ ok (restored + length bs)
    at :
        (j : Text)
        → lookup j (restore_from Y later bs restored m).1.documents
          ≡ brought_back Y laws now later j (lookup j docs) (lookup j m.documents)

  Brings-skip :
      (key : Text) (doc : Document Y F) (docs : TextMap (Document Y F)) (restored : ℕ)
      (m : DocumentManager Y F J)
      → doc_expired now doc ≡ true
      → lookup key docs ≡ none
      → Brings (backup_from Y now docs) docs restored m
      → Brings (backup_from Y now ((key, doc) ∷ docs)) ((key, doc) ∷ docs) restored m
  Brings-skip key doc docs restored m e u rest =
      rw (backup_from_skip Y now key doc docs e) (record {
        count = rest.count;
        at = λ j. rest.at j ∙ skipped Y laws now later key j doc docs (lookup j m.documents) e u;
      })

  Brings-keep :
      (key : Text) (doc : Document Y F) (docs : TextMap (Document Y F)) (restored : ℕ)
      (m : DocumentManager Y F J)
      → doc_expired now doc ≡ false
      → lookup key docs ≡ none
      → IsDocumentId key
      → Brings
          (backup_from Y now docs)
          docs
          (restored + 1)
          (record m { documents = insert key (revived Y laws now later key doc) m.documents })
      → Brings (backup_from Y now ((key, doc) ∷ docs)) ((key, doc) ∷ docs) restored m
  unfolding restore_from
  Brings-keep key doc docs restored m e u named rest =
      let r =
        restore_document-backup_document Y laws now later key doc named
        ∙ ap (λ d. ok d) (restored_as-revived Y laws now later key doc clock) in
      rw (backup_from_keep Y now key doc docs e) (record {
        count = rw (r, restore_from) (unfold backup_document in rest.count ∙ ap ok (omega arith));
        at = λ j.
            rw (r, restore_from)
              (unfold backup_document in
                rest.at j ∙ kept Y laws now later key j doc docs m.documents e u);
      })

  Brings-from :
      (docs : TextMap (Document Y F)) (restored : ℕ) (m : DocumentManager Y F J)
      → AllNamed docs
      → IsMap docs
      → Brings (backup_from Y now docs) docs restored m
  Brings-from [] restored m h u =
      unfold backup_from restore_from lookup in
      record { count = ap ok (omega arith); at = λ j. refl }
  Brings-from ((key, doc) ∷ docs) restored m h u = elim (Bool-cases (doc_expired now doc)) [
    | inl e ↦ Brings-skip key doc docs restored m e u.0 (Brings-from docs restored m h.1 u.1)
    | inr e ↦
        Brings-keep key doc docs restored m e u.0 h.0 (Brings-from docs (restored + 1) _ h.1 u.1)
  ]

  -- If each key is a valid id that stands once, the clock has 64 bits, and `yrs` keeps the `SyncLaws`: a
  -- backup that is restored into an empty manager brings back each document that had not expired and
  -- no other, as the document that `revived` makes of it: with its strategy, its Yrs state and the
  -- milliseconds that were left of its time to live. Where none were left, it comes back with no time
  -- to live at all.
  pub get-restore-backup :
      (m : DocumentManager Y F J) (j : Text)
      → AllNamed m.documents
      → IsMap m.documents
      → let r = restore Y later (backup Y now m) (new_manager Y {F = F} {J = J}) in
        (r.0 ≡ ok (length (backup Y now m).documents))
        × (get Y j r.1 ≡ (
            get Y j m >>= λ d.
            if doc_expired now d
            then err (document_not_found j)
            else ok (revived Y laws now later j d)))
  unfolding restore backup get new_manager
  get-restore-backup m j named unique =
      let b = Brings-from m.documents 0 (new_manager Y) named unique in
      (b.count ∙ ap ok (omega arith), rw (b.at j) (unfold lookup in ground arith))

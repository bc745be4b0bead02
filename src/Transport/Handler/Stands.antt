-- ===== src/Transport/Handler/Stands.antt =====
-- crates/ussl-transport/src/handler.rs: what the steps of the handlers do to the manager is
-- calls of the manager.
use ussl.Prelude.{◌≡◌, refl, subst, Bool, true, false, Option, none, some, Bool-cases, inl, inr}
use ussl.Text.{Text, text_eq_refl}
use ussl.TextMap.{lookup-insert}
use ussl.Core.Error.{Result, ok, err, hang}
use ussl.Core.Strategy.{Strategy}
use ussl.Core.Document.Id.{IsDocumentId, new_id, new_id_iff}
use ussl.Core.Document.State.{Document}
use ussl.Core.Document.Sync.{should_compact, compact}
use ussl.Core.Manager.State as Manager
use ussl.Core.Manager.State.{DocumentManager}
use ussl.Core.Manager.Lifecycle.{get-get_or_create}
use ussl.Core.Manager.Invariant.{Edit, Call, Reach, call}
use ussl.Protocol.Json.{Json}
use ussl.Transport.Handler.{Externals, World, Clock}
use ussl.Transport.Handler.Documents.{
  Answer, with_id, with_checked_id, persist_document, maybe_auto_compact, after_write,
  write_document,
}

module _ {F : Type 0} (X : Externals F) where
  -- The manager of a world is one that calls can reach.
  abbrev pub Reached : World X → Type 0
  Reached w = Reach X.yrs w.manager

  pub with_id-Reached :
      (doc_id : Option Text) (handle : Text → World X → Answer X) (w : World X)
      → ((id : Text) → IsDocumentId id → Reached (handle id w).1)
      → Reached w
      → Reached (with_id X doc_id handle w).1
  unfolding with_id
  with_id-Reached none handle w step h = h
  with_id-Reached (some id_str) handle w step h = by_id (new_id id_str) refl
    where
      by_id : (r : Result Text) → new_id id_str ≡ r → Reached (with_checked_id X r handle w).1
      by_id (ok id) e = let v = (new_id_iff id_str id).0 e in step id (subst IsDocumentId v.1 v.0)
      by_id (err x) e = h
      by_id hang e = h

  pub get-with_document :
      (id : Text) (doc : Document X.yrs F) (m : DocumentManager X.yrs F (Json X.serde.Number))
      → Manager.get X.yrs id (Manager.with_document X.yrs id doc m) ≡ ok doc
  unfolding Manager.get Manager.with_document
  get-with_document id doc m = rw (lookup-insert id id doc m.documents, text_eq_refl id) refl

  pub persist_document-manager :
      (storage : Bool) (id : Text) (doc : Document X.yrs F) (w : World X)
      → (persist_document X storage id doc w).manager ≡ w.manager
  unfolding persist_document
  persist_document-manager true id doc w = refl
  persist_document-manager false id doc w = refl

  -- A world in which the document stands under the id.
  abbrev pub Stands : Text → Document X.yrs F × World X → Type 0
  Stands id (doc, w) = Reached w × (Manager.get X.yrs id w.manager ≡ ok doc)

  pub maybe_auto_compact-Stands :
      (id : Text) (doc : Document X.yrs F) (w : World X)
      → Stands id (doc, w)
      → Stands id (maybe_auto_compact X id doc w)
  unfolding maybe_auto_compact
  maybe_auto_compact-Stands id doc w (h, e) = elim (Bool-cases (should_compact X.yrs doc)) [
    | inl b ↦ rw b (
      call h (Call.edit id doc (compact X.yrs doc).1 e Edit.compaction),
      get-with_document id (compact X.yrs doc).1 w.manager,
    )
    | inr b ↦ rw b (h, e)
  ]

  pub after_write-Stands :
      (storage : Bool) (id : Text) (doc : Document X.yrs F) (w : World X)
      → Stands id (doc, w)
      → Stands id (after_write X storage id doc w)
  unfolding after_write
  after_write-Stands storage id doc w s =
      let (h, e) = maybe_auto_compact-Stands id doc w s in
      rw
        (persist_document-manager storage id (maybe_auto_compact X id doc w).0
          (maybe_auto_compact X id doc w).1)
        (h, e)

  pub write_document-Stands :
      {A : Type 0} (now : Clock) (id : Text) (strategy : Strategy)
      (write : Document X.yrs F → Result A × Document X.yrs F)
      → ((doc : Document X.yrs F) → Edit X.yrs doc (write doc).1)
      → (w : World X) → IsDocumentId id
      → Reached w
      → let r = write_document X now id strategy write w in Stands id (r.0.1, r.1)
  write_document-Stands now id strategy write edit w i h =
      let (doc, m) = Manager.get_or_create X.yrs now.ms id strategy w.manager in
      let there = (get-get_or_create X.yrs now.ms id id strategy w.manager).1 in
      let found : Manager.get X.yrs id m ≡ ok doc = rw (text_eq_refl id) at there in
      (
        call (call h (Call.get_or_create now.ms id strategy i))
            (Call.edit id doc (write doc).1 found (edit doc)),
        get-with_document id (write doc).1 m,
      )

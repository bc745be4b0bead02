-- ===== src/Transport/Handler/SetGet.antt =====
-- crates/ussl-transport/src/handler.rs: GET after SET.
use ussl.Prelude.{◌≡◌, refl, ap, ◌∙◌, Bool, List, ◌∷◌, Option, none, some, Bool-cases, inl, inr}
use ussl.Text.{Text, codes}
use ussl.Core.Error.{Result, ok, err, hang}
use ussl.Core.Path.{PathSegment, segments}
use ussl.Core.Strategy.{default}
use ussl.Core.Value.{Value}
use ussl.Core.Document.Id.{IsDocumentId, new_id, new_id_iff}
use ussl.Core.Document.State as Doc
use ussl.Core.Document.State.{Document}
use ussl.Core.Document.Sync.{should_compact, compact}
use ussl.Core.Document.Reads.{TextLaws, IsMap, get-set}
use ussl.Core.Document.Compaction.{get-compact}
use ussl.Core.Manager.State as Manager
use ussl.Protocol.Response as Response
use ussl.Transport.Handler.{Externals, World, Clock}
use ussl.Transport.Handler.Documents.{
  with_id, with_manager, maybe_auto_compact, after_write, write_document, finish_set, publish_set,
  answered, answered_or, handle_set, handle_get,
}
use ussl.Transport.Handler.Stands.{get-with_document, persist_document-manager}

module _ {F : Type 0} (X : Externals F) where
  -- The document stands under the id, and returns the value at the path.
  abbrev Shows : Text → Text → Value F → Document X.yrs F × World X → Type 0
  Shows id path value (doc, w) =
      (Manager.get X.yrs id w.manager ≡ ok doc) × (Doc.get X.yrs (some path) doc ≡ ok value)

  maybe_auto_compact-Shows :
      (id path : Text) (value : Value F) (doc : Document X.yrs F) (w : World X)
      → TextLaws X.yrs
      → Shows id path value (doc, w)
      → Shows id path value (maybe_auto_compact X id doc w)
  unfolding maybe_auto_compact
  maybe_auto_compact-Shows id path value doc w laws (found, e) =
      elim (Bool-cases (should_compact X.yrs doc)) [
        | inl b ↦ rw b (
          get-with_document X id (compact X.yrs doc).1 w.manager,
          (get-compact X.yrs (some path) doc laws).1 ∙ e,
        )
        | inr b ↦ rw b (found, e)
      ]

  after_write-Shows :
      (storage : Bool) (id path : Text) (value : Value F) (doc : Document X.yrs F) (w : World X)
      → TextLaws X.yrs
      → Shows id path value (doc, w)
      → Shows id path value (after_write X storage id doc w)
  unfolding after_write
  after_write-Shows storage id path value doc w laws s =
      let (found, e) = maybe_auto_compact-Shows id path value doc w laws s in
      let (doc', w') = maybe_auto_compact X id doc w in
      (rw (persist_document-manager X storage id doc' w') found, e)

  publish_set-get :
      (id path : Text) (s : Document X.yrs F × World X)
      → Manager.get X.yrs id (publish_set X id path s).manager ≡ Manager.get X.yrs id s.1.manager
  unfolding Manager.get Manager.publish_update
  publish_set-get id path (doc, w) = refl

  abbrev read_answer : Text → Result (Document X.yrs F) → Option (Response.Response F)
  read_answer path r =
      answered_or Response.null
        (λ doc. answered (codes "GET_ERROR") Response.value (Doc.get X.yrs (some path) doc)) r

  get-finish_set :
      (storage : Bool) (id path : Text) (value : Value F) (r : Result (Unit {0}) × Document X.yrs F)
      (w : World X)
      → TextLaws X.yrs
      → r.0 ≡ ok tt
      → Shows id path value (r.1, w)
      → let a = finish_set X storage id path r w in
        (a.0 ≡ some (Response.ok none))
        × (read_answer path (Manager.get X.yrs id a.1.manager) ≡ some (Response.value value))
  get-finish_set storage id path value (ok tt, doc) w laws e s =
      let (found, v) = after_write-Shows storage id path value doc w laws s in
      (refl, rw (publish_set-get id path (after_write X storage id doc w), found, v) refl)
  get-finish_set storage id path value (err x, doc) w laws e s = cc
  get-finish_set storage id path value (hang, doc) w laws e s = cc

  handle_get-id :
      (id path : Text) (w : World X)
      → new_id id ≡ ok id
      → handle_get X (some id) (some path) w
        ≡ (read_answer path (Manager.get X.yrs id w.manager), w)
  unfolding handle_get with_id
  handle_get-id id path w e = rw e refl

  handle_set-id :
      (now : Clock) (storage : Bool) (id path : Text) (value : Value F) (w : World X)
      → new_id id ≡ ok id
      → let r = write_document X now id default (Doc.set X.yrs now.ms path value) w in
        handle_set X now storage (some id) path value w ≡ finish_set X storage id path r.0 r.1
  unfolding handle_set with_id
  handle_set-id now storage id path value w e = rw e refl

  -- SET of a path that has a segment, in a document of the strategy lww or crdt-map, or where there is
  -- no document yet, is answered by OK, and GET of this path is then answered by the value, whether
  -- the document was compacted or stored in between or not. The id is valid, and `yrs` keeps the
  -- `TextLaws`.
  pub handle_get-handle_set :
      (now : Clock) (storage : Bool) (id path : Text) (p : PathSegment) (ps : List PathSegment)
      (value : Value F) (w : World X)
      → TextLaws X.yrs
      → IsDocumentId id
      → segments path ≡ some (p ∷ ps)
      → IsMap (Manager.get_or_create X.yrs now.ms id default w.manager).0.meta.strategy
      → let set = handle_set X now storage (some id) path value w in
        (set.0 ≡ some (Response.ok none))
        × (handle_get X (some id) (some path) set.1 ≡ (some (Response.value value), set.1))
  handle_get-handle_set now storage id path p ps value w laws i parsed map =
      let valid = (new_id_iff id id).1 (i, refl) in
      let (doc, m) = Manager.get_or_create X.yrs now.ms id default w.manager in
      let (done, reads) = get-set X.yrs now.ms path p ps doc map parsed value in
      let r = Doc.set X.yrs now.ms path value doc in
      let written = with_manager X w (Manager.with_document X.yrs id r.1 m) in
      let (answer, shown) =
        get-finish_set storage id path value r written laws done
          (get-with_document X id r.1 m, reads) in
      rw (handle_set-id now storage id path value w valid) (
        answer,
        handle_get-id id path (finish_set X storage id path r written).1 valid
            ∙ ap (λ x. (x, (finish_set X storage id path r written).1)) shown,
      )

-- ===== src/Transport/Handler/Calls.antt =====
-- crates/ussl-transport/src/handler.rs: what a connection does to the manager is calls of the manager.
use ussl.Prelude.{ℕ, ◌≡◌, refl, Bool, Option, none, some}
use ussl.Prelude.Int.{ℤ}
use ussl.Text.{Text}
use ussl.Core.Error.{Result, ok, err, hang}
use ussl.Core.Strategy.{Strategy, default, crdt_counter}
use ussl.Core.Value.{Value}
use ussl.Core.Document.State as Doc
use ussl.Core.Document.State.{Document}
use ussl.Core.Manager.State as Manager
use ussl.Core.Manager.State.{DocumentManager}
use ussl.Core.Manager.Invariant.{Edit, Call, call}
use ussl.Transport.Handler.Stands.{
  Reached, with_id-Reached, Stands, after_write-Stands, write_document-Stands,
}
use ussl.Transport.Handler.{Externals, World, Clock}
use ussl.Transport.Handler.Documents.{
  after_write, finish_set, finish_push, finish_increment, publish_set, delete_at, delete_id,
  compact_found, expire_ttl, handle_create, handle_get, handle_set, handle_delete, handle_push,
  handle_increment, handle_compact, handle_expire, handle_ttl,
}

module _ {F : Type 0} (X : Externals F) where
  pub handle_create-Reached :
      (now : Clock) (doc_id : Option Text) (strategy : Strategy) (ttl : Option ℕ) (w : World X)
      → Reached X w
      → Reached X (handle_create X now doc_id strategy ttl w).1
  unfolding handle_create
  handle_create-Reached now doc_id strategy ttl w h =
      with_id-Reached X doc_id _ w (λ id i. call h (Call.create now.ms id strategy ttl i)) h

  pub handle_get-Reached :
      (doc_id path : Option Text) (w : World X)
      → Reached X w
      → Reached X (handle_get X doc_id path w).1
  unfolding handle_get
  handle_get-Reached doc_id path w h = with_id-Reached X doc_id _ w (λ id i. h) h

  publish_set-Reached :
      (id path : Text) (s : Document X.yrs F × World X)
      → Reached X s.1
      → Reached X (publish_set X id path s)
  publish_set-Reached id path (doc, w) h = call h (Call.publish_update _)

  finish_set-Reached :
      (storage : Bool) (id path : Text) (r : Result (Unit {0}) × Document X.yrs F) (w : World X)
      → Stands X id (r.1, w)
      → Reached X (finish_set X storage id path r w).1
  finish_set-Reached storage id path (ok u, doc) w s =
      publish_set-Reached id path (after_write X storage id doc w)
        (after_write-Stands X storage id doc w s).0
  finish_set-Reached storage id path (err e, doc) w s = s.0
  finish_set-Reached storage id path (hang, doc) w s = s.0

  pub handle_set-Reached :
      (now : Clock) (storage : Bool) (doc_id : Option Text) (path : Text) (value : Value F)
      (w : World X)
      → Reached X w
      → Reached X (handle_set X now storage doc_id path value w).1
  unfolding handle_set
  handle_set-Reached now storage doc_id path value w h =
      with_id-Reached X doc_id _ w
        (λ id i. finish_set-Reached storage id path _ _ (
          write_document-Stands X now id default (Doc.set X.yrs now.ms path value)
            (λ doc. Edit.set now.ms path value) w i h))
        h

  finish_push-Reached :
      (storage : Bool) (id : Text) (r : Result (Unit {0}) × Document X.yrs F) (w : World X)
      → Stands X id (r.1, w)
      → Reached X (finish_push X storage id r w).1
  finish_push-Reached storage id (ok u, doc) w s = (after_write-Stands X storage id doc w s).0
  finish_push-Reached storage id (err e, doc) w s = s.0
  finish_push-Reached storage id (hang, doc) w s = s.0

  pub handle_push-Reached :
      (now : Clock) (storage : Bool) (doc_id : Option Text) (path : Text) (value : Value F)
      (w : World X)
      → Reached X w
      → Reached X (handle_push X now storage doc_id path value w).1
  unfolding handle_push
  handle_push-Reached now storage doc_id path value w h =
      with_id-Reached X doc_id _ w
        (λ id i. finish_push-Reached storage id _ _ (
          write_document-Stands X now id default (Doc.push X.yrs now.ms path value)
            (λ doc. Edit.push now.ms path value) w i h))
        h

  finish_increment-Reached :
      (storage : Bool) (id : Text) (r : Result ℤ × Document X.yrs F) (w : World X)
      → Stands X id (r.1, w)
      → Reached X (finish_increment X storage id r w).1
  finish_increment-Reached storage id (ok n, doc) w s = (after_write-Stands X storage id doc w s).0
  finish_increment-Reached storage id (err e, doc) w s = s.0
  finish_increment-Reached storage id (hang, doc) w s = s.0

  pub handle_increment-Reached :
      (now : Clock) (storage : Bool) (doc_id : Option Text) (path : Text) (delta : ℤ) (w : World X)
      → Reached X w
      → Reached X (handle_increment X now storage doc_id path delta w).1
  unfolding handle_increment
  handle_increment-Reached now storage doc_id path delta w h =
      with_id-Reached X doc_id _ w
        (λ id i. finish_increment-Reached storage id _ _ (
          write_document-Stands X now id crdt_counter (Doc.increment X.yrs now.ms path delta)
            (λ doc. Edit.increment now.ms path delta) w i h))
        h

  delete_at-Reached :
      (now : Clock) (id path : Text) (r : Result (Document X.yrs F)) (w : World X)
      → Manager.get X.yrs id w.manager ≡ r
      → Reached X w
      → Reached X (delete_at X now id path r w).1
  delete_at-Reached now id path (ok doc) w e h =
      call h (Call.edit id doc _ e (Edit.delete now.ms (some path)))
  delete_at-Reached now id path (err x) w e h = h
  delete_at-Reached now id path hang w e h = h

  delete_id-Reached :
      (now : Clock) (path : Option Text) (id : Text) (w : World X)
      → Reached X w
      → Reached X (delete_id X now path id w).1
  delete_id-Reached now (some path) id w h = delete_at-Reached now id path _ w refl h
  delete_id-Reached now none id w h = call h (Call.delete id)

  pub handle_delete-Reached :
      (now : Clock) (doc_id path : Option Text) (w : World X)
      → Reached X w
      → Reached X (handle_delete X now doc_id path w).1
  unfolding handle_delete
  handle_delete-Reached now doc_id path w h =
      with_id-Reached X doc_id _ w (λ id i. delete_id-Reached now path id w h) h

  compact_found-Reached :
      (id : Text) (r : Result (Document X.yrs F)) (w : World X)
      → Manager.get X.yrs id w.manager ≡ r
      → Reached X w
      → Reached X (compact_found X id r w).1
  compact_found-Reached id (ok doc) w e h = call h (Call.edit id doc _ e Edit.compaction)
  compact_found-Reached id (err x) w e h = h
  compact_found-Reached id hang w e h = h

  pub handle_compact-Reached :
      (doc_id : Option Text) (w : World X) → Reached X w → Reached X (handle_compact X doc_id w).1
  unfolding handle_compact
  handle_compact-Reached doc_id w h =
      with_id-Reached X doc_id _ w (λ id i. compact_found-Reached id _ w refl h) h

  pub handle_expire-Reached :
      (doc_id : Option Text) (ttl_ms : ℕ) (w : World X)
      → Reached X w
      → Reached X (handle_expire X doc_id ttl_ms w).1
  unfolding handle_expire
  handle_expire-Reached doc_id ttl_ms w h =
      with_id-Reached X doc_id _ w (λ id i. call h (Call.set_expire id (expire_ttl X ttl_ms))) h

  pub handle_ttl-Reached :
      (now : Clock) (doc_id : Option Text) (w : World X)
      → Reached X w
      → Reached X (handle_ttl X now doc_id w).1
  unfolding handle_ttl
  handle_ttl-Reached now doc_id w h = with_id-Reached X doc_id _ w (λ id i. h) h

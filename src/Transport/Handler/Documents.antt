-- ===== src/Transport/Handler/Documents.antt =====
-- crates/ussl-transport/src/handler.rs: the handlers of the commands on one document. An answer of
-- `none` is a call that does not return.
use ussl.Prelude.{ℕ, suc, zero, Bool, true, false, [], ◌∷◌, ◌++◌, Option, none, some, if◌then◌else◌}
use ussl.Prelude.Int.{ℤ, pos, negsuc}
use ussl.Prelude.Word.{to_i64}
use ussl.Text.{Text, codes}
use ussl.Core.Error.{Result, ok, err, hang}
use ussl.Core.Strategy.{Strategy, default, crdt_counter}
use ussl.Core.Value.{Value}
use ussl.Core.Document.Id.{new_id}
use ussl.Core.Document.State as Doc
use ussl.Core.Document.State.{Document}
use ussl.Core.Document.Sync.{encode_state, should_compact, compact}
use ussl.Core.Manager.State as Manager
use ussl.Core.Manager.State.{DocumentManager, Delta}
use ussl.Protocol.Json.{Json}
use ussl.Protocol.Messages.{error_text}
use ussl.Protocol.Response.{Response, error, not_found}
use ussl.Transport.Handler.{Externals, World, Clock, StoreTask}

-- `Ok(a) => f(a)` and `Err(e) => Response::error(code, e.to_string())`
abbrev pub answered {ℓ} :
    {A : Type ℓ} {F : Type 0} → Text → (A → Response F) → Result A → Option (Response F)
answered code f (ok a) = some (f a)
answered code f (err e) = some (error code (error_text e))
answered code f hang = none

-- `Err(_) => r`
abbrev pub answered_or {ℓ} :
    {A : Type ℓ} {F : Type 0}
    → Response F
    → (A → Option (Response F))
    → Result A
    → Option (Response F)
answered_or r f (ok a) = f a
answered_or r f (err e) = some r
answered_or r f hang = none

module _ {F : Type 0} (X : Externals F) where
  abbrev pub Answer : Type 0
  Answer = Option (Response F) × World X

  abbrev pub with_manager : World X → DocumentManager X.yrs F (Json X.serde.Number) → World X
  with_manager w m = record w { manager = m }

  -- `DocumentId::new(&id_str)` with its early return
  abbrev pub with_checked_id : Result Text → (Text → World X → Answer) → World X → Answer
  with_checked_id (ok id) handle w = handle id w
  with_checked_id (err e) handle w = (some (error (codes "INVALID_ID") (error_text e)), w)
  with_checked_id hang handle w = (none, w)

  -- the two early returns in front of a handler
  unfoldable pub with_id : Option Text → (Text → World X → Answer) → World X → Answer
  with_id none handle w = (some (error (codes "MISSING_ARG") (codes "Document ID required")), w)
  with_id (some id_str) handle w = with_checked_id (new_id id_str) handle w

  -- `persist_document`; whether there is a storage is the first argument
  unfoldable pub persist_document : Bool → Text → Document X.yrs F → World X → World X
  persist_document true id doc w =
      let task : StoreTask = record { id = id; meta = doc.meta; state = encode_state X.yrs doc } in
      record w { spawned = w.spawned ++ task ∷ [] }
  persist_document false id doc w = w

  -- `maybe_auto_compact`; an error leaves the document as it was
  unfoldable pub maybe_auto_compact : Text → Document X.yrs F → World X → Document X.yrs F × World X
  maybe_auto_compact id doc w =
      let doc' = (compact X.yrs doc).1 in
      if should_compact X.yrs doc
      then (doc', with_manager w (Manager.with_document X.yrs id doc' w.manager))
      else (doc, w)

  -- what follows a write that succeeded
  unfoldable pub after_write : Bool → Text → Document X.yrs F → World X → Document X.yrs F × World X
  after_write storage id doc w =
      let (doc', w') = maybe_auto_compact id doc w in (doc', persist_document storage id doc' w')

  unfoldable pub handle_create : Clock → Option Text → Strategy → Option ℕ → World X → Answer
  handle_create now doc_id strategy ttl w =
      with_id doc_id
        (λ id w.
          let (r, m) = Manager.create X.yrs now.ms id strategy ttl w.manager in
          (answered (codes "CREATE_ERROR") (λ doc. Response.ok none) r, with_manager w m))
        w

  unfoldable pub handle_get : Option Text → Option Text → World X → Answer
  handle_get doc_id path w =
      with_id doc_id
        (λ id w. (
          answered_or Response.null
              (λ doc. answered (codes "GET_ERROR") Response.value (Doc.get X.yrs path doc))
              (Manager.get X.yrs id w.manager),
          w,
        ))
        w

  abbrev pub publish_set : Text → Text → Document X.yrs F × World X → World X
  publish_set id path (doc, w) =
      let delta : Delta = record {
        document_id = id;
        version = doc.meta.version;
        path = some path;
        payload = encode_state X.yrs doc;
      } in
      with_manager w (Manager.publish_update X.yrs delta w.manager)

  -- the branches on the result of `doc.set`, with the written document
  abbrev pub finish_set :
      Bool → Text → Text → Result (Unit {0}) × Document X.yrs F → World X → Answer
  finish_set storage id path (ok u, doc) w =
      (some (Response.ok none), publish_set id path (after_write storage id doc w))
  finish_set storage id path (err e, doc) w = (some (error (codes "SET_ERROR") (error_text e)), w)
  finish_set storage id path (hang, doc) w = (none, w)

  -- `get_or_create`, and a write to the document that it returns
  abbrev pub write_document {ℓ} :
      {A : Type ℓ}
      → Clock
      → Text
      → Strategy
      → (Document X.yrs F → Result A × Document X.yrs F)
      → World X
      → (Result A × Document X.yrs F) × World X
  write_document now id strategy write w =
      let (doc, m) = Manager.get_or_create X.yrs now.ms id strategy w.manager in
      let r = write doc in (r, with_manager w (Manager.with_document X.yrs id r.1 m))

  unfoldable pub handle_set : Clock → Bool → Option Text → Text → Value F → World X → Answer
  handle_set now storage doc_id path value w =
      with_id doc_id
        (λ id w.
          let (r, w') = write_document now id default (Doc.set X.yrs now.ms path value) w in
          finish_set storage id path r w')
        w

  abbrev pub delete_at : Clock → Text → Text → Result (Document X.yrs F) → World X → Answer
  delete_at now id path (ok doc) w =
      let (r, doc') = Doc.delete X.yrs now.ms (some path) doc in
      (
        answered (codes "DELETE_ERROR") (λ u. Response.ok none) r,
        with_manager w (Manager.with_document X.yrs id doc' w.manager),
      )
  delete_at now id path (err e) w = (some (not_found id), w)
  delete_at now id path hang w = (none, w)

  abbrev pub delete_id : Clock → Option Text → Text → World X → Answer
  delete_id now (some path) id w = delete_at now id path (Manager.get X.yrs id w.manager) w
  delete_id now none id w =
      let (r, m) = Manager.delete X.yrs id w.manager in
      (answered (codes "DELETE_ERROR") (λ u. Response.ok none) r, with_manager w m)

  unfoldable pub handle_delete : Clock → Option Text → Option Text → World X → Answer
  handle_delete now doc_id path w = with_id doc_id (delete_id now path) w

  abbrev pub finish_push : Bool → Text → Result (Unit {0}) × Document X.yrs F → World X → Answer
  finish_push storage id (ok u, doc) w = (some (Response.ok none), (after_write storage id doc w).1)
  finish_push storage id (err e, doc) w = (some (error (codes "PUSH_ERROR") (error_text e)), w)
  finish_push storage id (hang, doc) w = (none, w)

  unfoldable pub handle_push : Clock → Bool → Option Text → Text → Value F → World X → Answer
  handle_push now storage doc_id path value w =
      with_id doc_id
        (λ id w.
          let (r, w') = write_document now id default (Doc.push X.yrs now.ms path value) w in
          finish_push storage id r w')
        w

  abbrev pub finish_increment : Bool → Text → Result ℤ × Document X.yrs F → World X → Answer
  finish_increment storage id (ok n, doc) w =
      (some (Response.integer n), (after_write storage id doc w).1)
  finish_increment storage id (err e, doc) w = (some (error (codes "INC_ERROR") (error_text e)), w)
  finish_increment storage id (hang, doc) w = (none, w)

  unfoldable pub handle_increment : Clock → Bool → Option Text → Text → ℤ → World X → Answer
  handle_increment now storage doc_id path delta w =
      with_id doc_id
        (λ id w.
          let (r, w') =
            write_document now id crdt_counter (Doc.increment X.yrs now.ms path delta) w in
          finish_increment storage id r w')
        w

  abbrev pub compact_found : Text → Result (Document X.yrs F) → World X → Answer
  compact_found id (ok doc) w =
      let (r, doc') = compact X.yrs doc in
      (
        answered (codes "COMPACT_ERROR") (λ bytes_saved. Response.integer (to_i64 bytes_saved)) r,
        with_manager w (Manager.with_document X.yrs id doc' w.manager),
      )
  compact_found id (err e) w = (some (not_found id), w)
  compact_found id hang w = (none, w)

  unfoldable pub handle_compact : Option Text → World X → Answer
  handle_compact doc_id w =
      with_id doc_id (λ id w. compact_found id (Manager.get X.yrs id w.manager) w) w

  -- A time of 0 takes the time to live away.
  abbrev pub expire_ttl : ℕ → Option ℕ
  expire_ttl zero = none
  expire_ttl (suc n) = some (suc n)

  unfoldable pub handle_expire : Option Text → ℕ → World X → Answer
  handle_expire doc_id ttl_ms w =
      with_id doc_id
        (λ id w.
          let (r, m) = Manager.set_expire X.yrs id (expire_ttl ttl_ms) w.manager in
          (answered (codes "EXPIRE_ERROR") (λ u. Response.ok none) r, with_manager w m))
        w

  abbrev pub ttl_answer : Option ℤ → Response F
  ttl_answer (some (pos n)) = Response.integer (pos n)
  ttl_answer (some (negsuc n)) = Response.integer (negsuc 1)
  ttl_answer none = Response.integer (negsuc 0)

  unfoldable pub handle_ttl : Clock → Option Text → World X → Answer
  handle_ttl now doc_id w =
      with_id doc_id
        (λ id w. (
          answered_or (not_found id) (λ remaining. some (ttl_answer remaining))
              (Manager.ttl X.yrs now.ms id w.manager),
          w,
        ))
        w

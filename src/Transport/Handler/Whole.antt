-- ===== src/Transport/Handler/Whole.antt =====
-- crates/ussl-transport/src/handler.rs: the handlers of the commands on the whole manager, presences
-- included, and the choice of the handler for a command.
use ussl.Prelude.{ℕ, Bool, true, false, not, ◌&&◌, List, [], ◌∷◌, Option, none, some, if◌then◌else◌}
use ussl.Prelude.Word.{to_i64}
use ussl.Text.{Text, codes, text_eq}
use ussl.Core.Error.{Result, ok, err, hang}
use ussl.Core.Document.Id.{new_id}
use ussl.Core.Document.Meta.{DocumentMeta}
use ussl.Core.Document.State.{Document}
use ussl.Core.Manager.Backup as Backups
use ussl.Core.Manager.Backup.{Backup, DocumentBackup}
use ussl.Core.Manager.State as Manager
use ussl.Core.Manager.State.{Presence}
use ussl.Protocol.Command as Kind
use ussl.Protocol.Command.{Command, CommandKind}
use ussl.Protocol.Json.{Json, Elements, none_left, element, no_more, member}
use ussl.Protocol.Messages.{error_text}
use ussl.Protocol.Response.{Response, Responses, nil, cons, error}
use ussl.Transport.Handler.{Externals, World, Clock, Handler, handle_subscribe, handle_unsubscribe}
use ussl.Transport.Handler.Documents.{
  Answer, with_manager, with_id, persist_document, handle_create, handle_get, handle_set,
  handle_delete, handle_push, handle_increment, handle_compact, handle_expire, handle_ttl,
}

-- `unwrap_or_default()`
abbrev pub bytes_of : Option Text → Text
bytes_of none = []
bytes_of (some bytes) = bytes

module _ {F : Type 0} (X : Externals F) where
  -- the JSON of `json!`, the entries of an object in the order of their keys
  abbrev presence_json : Presence (Json X.serde.Number) → Json X.serde.Number
  presence_json p = Json.object (
      member (codes "client_id") (Json.string p.client_id)
        (member (codes "data") p.payload no_more))

  abbrev presences_json : List (Presence (Json X.serde.Number)) → Elements X.serde.Number
  presences_json [] = none_left
  presences_json (p ∷ ps) = element (presence_json p) (presences_json ps)

  abbrev pub presence_given : Text → Option (Json X.serde.Number) → Text → World X → Answer X
  presence_given client_id (some payload) id w = (
    some (Response.ok none),
    with_manager X w (Manager.set_presence X.yrs client_id id payload w.manager),
  )
  presence_given client_id none id w =
      let json = presences_json (Manager.get_presence X.yrs id w.manager) in
      (some (Response.bulk (bytes_of (X.to_vec (Json.array json)))), w)

  unfoldable pub handle_presence :
      Text → Option Text → Option (Json X.serde.Number) → World X → Answer X
  handle_presence client_id doc_id payload w = with_id X doc_id (presence_given client_id payload) w

  abbrev texts_json : List Text → Elements X.serde.Number
  texts_json [] = none_left
  texts_json (t ∷ ts) = element (Json.string t) (texts_json ts)

  abbrev pub info_json : Handler → World X → Json X.serde.Number
  info_json h w =
      let stats = Manager.stats X.yrs w.manager in
      Json.object (
        member (codes "client_id") (Json.string h.client_id) (
          member (codes "documents") (Json.number (X.from_usize stats.document_count)) (
            member (codes "subscribers") (Json.number (X.from_usize stats.subscriber_count)) (
              member (codes "subscriptions") (Json.array (texts_json h.subscriptions))
                (member (codes "version") (Json.string X.version) no_more)))))

  unfoldable pub handle_info : Handler → World X → Response F
  handle_info h w = Response.bulk (bytes_of (X.to_vec (info_json h w)))

  abbrev pub keys_of : List DocumentMeta → Responses F
  keys_of [] = nil
  keys_of (m ∷ ms) = cons (Response.bulk m.id) (keys_of ms)

  unfoldable pub handle_keys : Option Text → World X → Response F
  handle_keys pattern w = Response.array (keys_of (Manager.list X.yrs pattern w.manager))

  abbrev backup_answer : Backup → Option Text → Response F
  backup_answer b (some json) = Response.bulk json
  backup_answer b none = error (codes "BACKUP_ERROR") (X.backup_to_vec_message b)

  unfoldable pub handle_backup : Clock → World X → Response F
  handle_backup now w =
      let b = Backups.backup X.yrs now.ms w.manager in backup_answer b (X.backup_to_vec b)

  abbrev pub persist_found : Bool → Text → Result (Document X.yrs F) → World X → World X
  persist_found storage id (ok doc) w = persist_document X storage id doc w
  persist_found storage id (err e) w = w
  persist_found storage id hang w = w

  abbrev pub persist_id : Bool → Result Text → World X → World X
  persist_id storage (ok id) w = persist_found storage id (Manager.get X.yrs id w.manager) w
  persist_id storage (err e) w = w
  persist_id storage hang w = w

  -- the loop over the documents of a backup
  unfoldable pub persist_restored : Bool → List DocumentBackup → World X → World X
  persist_restored storage [] w = w
  persist_restored storage (b ∷ bs) w =
      persist_restored storage bs (persist_id storage (new_id b.id) w)

  abbrev pub finish_restore : Bool → Backup → Result ℕ → World X → Answer X
  finish_restore storage b (ok count) w = (
    some (Response.integer (to_i64 count)),
    if storage then persist_restored storage b.documents w else w,
  )
  finish_restore storage b (err e) w = (some (error (codes "RESTORE_ERROR") (error_text e)), w)
  finish_restore storage b hang w = (none, w)

  abbrev pub restore_read : Clock → Bool → Text → Option Backup → World X → Answer X
  restore_read now storage bytes none w =
      (some (error (codes "INVALID_JSON") (X.backup_from_str_message bytes)), w)
  restore_read now storage bytes (some b) w =
      let (r, m) = Backups.restore X.yrs now.ms b w.manager in
      finish_restore storage b r (with_manager X w m)

  unfoldable pub handle_restore : Clock → Bool → Text → World X → Answer X
  handle_restore now storage bytes w = restore_read now storage bytes (X.backup_from_str bytes) w

  abbrev pub check_password : Text → Option Text → Handler → Response F × Handler
  check_password password (some expected) h =
      if text_eq expected password
      then (Response.ok none, record h { authenticated = true })
      else (error (codes "WRONGPASS") (codes "Invalid password"), h)
  check_password password none h = (Response.ok (some (codes "No authentication required")), h)

  unfoldable pub handle_auth : Text → Handler → Response F × Handler
  handle_auth password h = check_password password h.password h

  -- An answer, with the handler and what the connections share after it.
  pub record Handled : Type 0 where
    pub response : Option (Response F)
    pub handler : Handler
    pub world : World X

  abbrev pub of_answer : Handler → Answer X → Handled
  of_answer h (r, w) = record { response = r; handler = h; world = w }

  abbrev pub of_response : World X → Response F × Handler → Handled
  of_response w (r, h) = record { response = some r; handler = h; world = w }

  -- the second `match` of `handle_command`; its first three kinds are handled before
  unfoldable pub handle_kind :
      Clock → CommandKind F (Json X.serde.Number) → Option Text → Handler → World X → Handled
  handle_kind now (Kind.auth password) id h w = of_response w (handle_auth password h)
  handle_kind now Kind.ping id h w = of_response w (Response.pong, h)
  handle_kind now Kind.quit id h w = of_response w (Response.ok (some (codes "Goodbye")), h)
  handle_kind now (Kind.create strategy ttl) id h w =
      of_answer h (handle_create X now id strategy ttl w)
  handle_kind now (Kind.get path) id h w = of_answer h (handle_get X id path w)
  handle_kind now (Kind.set path value) id h w =
      of_answer h (handle_set X now h.has_storage id path value w)
  handle_kind now (Kind.delete path) id h w = of_answer h (handle_delete X now id path w)
  handle_kind now (Kind.subscribe pattern path) id h w = of_response w (handle_subscribe pattern h)
  handle_kind now (Kind.unsubscribe pattern) id h w = of_response w (handle_unsubscribe pattern h)
  handle_kind now (Kind.push path value) id h w =
      of_answer h (handle_push X now h.has_storage id path value w)
  handle_kind now (Kind.increment path delta) id h w =
      of_answer h (handle_increment X now h.has_storage id path delta w)
  handle_kind now (Kind.presence payload) id h w =
      of_answer h (handle_presence h.client_id id payload w)
  handle_kind now Kind.info id h w = of_response w (handle_info h w, h)
  handle_kind now (Kind.keys pattern) id h w = of_response w (handle_keys pattern w, h)
  handle_kind now Kind.compact id h w = of_answer h (handle_compact X id w)
  handle_kind now (Kind.expire ttl_ms) id h w = of_answer h (handle_expire X id ttl_ms w)
  handle_kind now Kind.ttl id h w = of_answer h (handle_ttl X now id w)
  handle_kind now Kind.backup id h w = of_response w (handle_backup now w, h)
  handle_kind now (Kind.restore bytes) id h w =
      of_answer h (handle_restore now h.has_storage bytes w)

  -- the kinds of the first `match`, which need no authentication
  abbrev pub is_open : CommandKind F (Json X.serde.Number) → Bool
  is_open (Kind.auth password) = true
  is_open Kind.ping = true
  is_open Kind.quit = true
  is_open kind = false

  -- the test in front of all other kinds
  abbrev pub needs_auth : CommandKind F (Json X.serde.Number) → Handler → Bool
  needs_auth kind h = not (is_open kind) && (h.require_auth && not h.authenticated)

  -- `handle_command`
  unfoldable pub handle_command :
      Clock → Command F (Json X.serde.Number) → Handler → World X → Handled
  handle_command now cmd h w =
      if needs_auth cmd.kind h
      then of_response w
          (error (codes "NOAUTH") (codes "Authentication required. Use AUTH <password>"), h)
      else handle_kind now cmd.kind cmd.document_id h w

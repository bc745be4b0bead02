-- ===== src/Transport/Handler/Histories.antt =====
-- crates/ussl-transport/src/handler.rs: the managers that connections make.
use ussl.Prelude.{
  ℕ, ◌≡◌, refl, sym, subst, ◌∙◌, Bool, true, false, List, [], ◌∷◌, Option, none, some, Bool-cases,
  inl, inr,
}
use ussl.Text.{Text}
use ussl.Core.Manager.State as Manager
use ussl.Core.Error.{Result, ok, err, hang}
use ussl.Core.Document.Id.{new_id}
use ussl.Core.Document.State.{Document}
use ussl.Core.Manager.Backup.{Backup, DocumentBackup}
use ussl.Core.Manager.Invariant as Call
use ussl.Core.Manager.Invariant.{Reach, call, IsManager, Reach-IsManager}
use ussl.Protocol.Command as Kind
use ussl.Protocol.Command.{Command, CommandKind}
use ussl.Protocol.Json.{Json}
use ussl.Transport.Handler.{Externals, World, Clock, Handler, cleanup, subscribe_updates}
use ussl.Transport.Handler.Whole.{
  handle_presence, presence_given, persist_found, persist_id, persist_restored, finish_restore,
  restore_read, handle_restore, handle_kind, handle_command, needs_auth,
}
use ussl.Transport.Handler.Process.{served, serve, check_limit, process}
use ussl.Transport.Handler.Drain.{drain, drain-holds, process-holds}
use ussl.Transport.Handler.Stands.{Reached, with_id-Reached, persist_document-manager}
use ussl.Daemon.{collect_garbage}
use ussl.Transport.Handler.Calls.{
  handle_create-Reached, handle_get-Reached, handle_set-Reached, handle_push-Reached,
  handle_increment-Reached, handle_delete-Reached, handle_compact-Reached, handle_expire-Reached,
  handle_ttl-Reached,
}

module _ {F : Type 0} (X : Externals F) where
  presence_given-Reached :
      (client_id : Text) (payload : Option (Json X.serde.Number)) (id : Text) (w : World X)
      → Reached X w
      → Reached X (presence_given X client_id payload id w).1
  presence_given-Reached client_id (some payload) id w h =
      call h (Call.set_presence client_id id payload)
  presence_given-Reached client_id none id w h = h

  persist_found-manager :
      (storage : Bool) (id : Text) (r : Result (Document X.yrs F)) (w : World X)
      → (persist_found X storage id r w).manager ≡ w.manager
  persist_found-manager storage id (ok doc) w = persist_document-manager X storage id doc w
  persist_found-manager storage id (err e) w = refl
  persist_found-manager storage id hang w = refl

  persist_id-manager :
      (storage : Bool) (r : Result Text) (w : World X)
      → (persist_id X storage r w).manager ≡ w.manager
  persist_id-manager storage (ok id) w = persist_found-manager storage id _ w
  persist_id-manager storage (err e) w = refl
  persist_id-manager storage hang w = refl

  persist_restored-manager :
      (storage : Bool) (bs : List DocumentBackup) (w : World X)
      → (persist_restored X storage bs w).manager ≡ w.manager
  unfolding persist_restored
  persist_restored-manager storage [] w = refl
  persist_restored-manager storage (b ∷ bs) w =
      persist_restored-manager storage bs (persist_id X storage (new_id b.id) w)
      ∙ persist_id-manager storage (new_id b.id) w

  finish_restore-Reached :
      (storage : Bool) (b : Backup) (r : Result ℕ) (w : World X)
      → Reached X w
      → Reached X (finish_restore X storage b r w).1
  finish_restore-Reached true b (ok count) w h =
      subst (Reach X.yrs) (sym (persist_restored-manager true b.documents w)) h
  finish_restore-Reached false b (ok count) w h = h
  finish_restore-Reached storage b (err e) w h = h
  finish_restore-Reached storage b hang w h = h

  restore_read-Reached :
      (now : Clock) (storage : Bool) (bytes : Text) (o : Option Backup) (w : World X)
      → Reached X w
      → Reached X (restore_read X now storage bytes o w).1
  restore_read-Reached now storage bytes none w h = h
  restore_read-Reached now storage bytes (some b) w h =
      finish_restore-Reached storage b _ _ (call h (Call.restoration now.ms b))

  handle_kind-Reached :
      (now : Clock) (kind : CommandKind F (Json X.serde.Number)) (id : Option Text) (h : Handler)
      (w : World X)
      → Reached X w
      → Reached X (handle_kind X now kind id h w).world
  unfolding handle_kind
  handle_kind-Reached now (Kind.create strategy ttl) id h w r =
      handle_create-Reached X now id strategy ttl w r
  handle_kind-Reached now (Kind.get path) id h w r = handle_get-Reached X id path w r
  handle_kind-Reached now (Kind.set path value) id h w r =
      handle_set-Reached X now h.has_storage id path value w r
  handle_kind-Reached now (Kind.delete path) id h w r = handle_delete-Reached X now id path w r
  handle_kind-Reached now (Kind.push path value) id h w r =
      handle_push-Reached X now h.has_storage id path value w r
  handle_kind-Reached now (Kind.increment path delta) id h w r =
      handle_increment-Reached X now h.has_storage id path delta w r
  handle_kind-Reached now (Kind.presence payload) id h w r =
      unfold handle_presence in
      with_id-Reached X id _ w (λ i v. presence_given-Reached h.client_id payload i w r) r
  handle_kind-Reached now Kind.compact id h w r = handle_compact-Reached X id w r
  handle_kind-Reached now (Kind.expire ttl_ms) id h w r = handle_expire-Reached X id ttl_ms w r
  handle_kind-Reached now Kind.ttl id h w r = handle_ttl-Reached X now id w r
  handle_kind-Reached now (Kind.restore bytes) id h w r =
      unfold handle_restore in
      restore_read-Reached now h.has_storage bytes (X.backup_from_str bytes) w r
  handle_kind-Reached now _ id h w r = r

  handle_command-Reached :
      (now : Clock) (cmd : Command F (Json X.serde.Number)) (h : Handler) (w : World X)
      → Reached X w
      → Reached X (handle_command X now cmd h w).world
  unfolding handle_command
  handle_command-Reached now cmd h w r = elim (Bool-cases (needs_auth X cmd.kind h)) [
    | inl e ↦ rw e r
    | inr e ↦ rw e (handle_kind-Reached now cmd.kind cmd.document_id h w r)
  ]

  served-Reached :
      (now : Clock) (cmd : Command F (Json X.serde.Number)) (l : Bool × Handler) (w : World X)
      → Reached X w
      → Reached X (served X now cmd l w).world
  served-Reached now cmd (true, h) w r = handle_command-Reached now cmd h w r
  served-Reached now cmd (false, h) w r = r

  serve-Reached :
      (now : Clock) (cmd : Command F (Json X.serde.Number)) (h : Handler) (w : World X)
      → Reached X w
      → Reached X (serve X now cmd h w).world
  unfolding serve
  serve-Reached now cmd h w r = served-Reached now cmd (check_limit X now cmd.kind h) w r

  drain-Reached :
      (now : Clock) (h : Handler) (w : World X) → Reached X w → Reached X (drain X now h w).world
  drain-Reached now h w =
      drain-holds X now (λ h' w' run. Reached X w' → Reached X run.world) (λ h' w' e r. r)
        (λ h' w' line s x e r. r) (λ h' w' line s cmd e r. serve-Reached now cmd _ w' r)
        (λ h' w' line s cmd a run e o answer rest r. rest (serve-Reached now cmd _ w' r)) h w

  process-Reached :
      (now : Clock) (bytes : Text) (h : Handler) (w : World X)
      → Reached X w
      → Reached X (process X now bytes h w).world
  process-Reached now bytes h w r =
      process-holds X now bytes h w (λ run. Reached X run.world) (λ e. drain-Reached now _ w r)
        (λ x. r)

  -- What connections do to what they share: each handles bytes, each at its own time and in whatever
  -- state it is, takes a receiver, drops it, and cleans up; and expired documents are collected.
  pub data Served : World X → World X → Type 0 where
    idle : {w : World X} → Served w w
    processed :
        {w w' : World X} (now : Clock) (bytes : Text) (h : Handler)
        → Served w w'
        → Served w (process X now bytes h w').world
    receiving : {w w' : World X} → Served w w' → Served w (subscribe_updates X w')
    dropped :
        {w w' : World X}
        → Served w w'
        → Served w (record w' { manager = Manager.drop_receiver X.yrs w'.manager })
    closed : {w w' : World X} (h : Handler) → Served w w' → Served w (cleanup X h w')
    collected : {w w' : World X} (now : ℕ) → Served w w' → Served w (collect_garbage X now w')

  Served-Reached : {w w' : World X} → Served w w' → Reached X w → Reached X w'
  unfolding subscribe_updates cleanup collect_garbage
  Served-Reached idle r = r
  Served-Reached (processed now bytes h s) r = process-Reached now bytes h _ (Served-Reached s r)
  Served-Reached (receiving s) r = call (Served-Reached s r) Call.subscribe
  Served-Reached (dropped s) r = call (Served-Reached s r) Call.drop_receiver
  Served-Reached (closed h s) r = call (Served-Reached s r) (Call.remove_presence h.client_id)
  Served-Reached (collected now s) r = call (Served-Reached s r) (Call.gc now)

  -- Whatever any number of connections send, in any order and at any times, and whenever expired
  -- documents are collected, a manager that calls of its
  -- operations can reach stays one; so each document is found under its own id, which is one that
  -- `DocumentId::new` lets through, and no id has two documents or two lists of presences.
  pub Served-IsManager :
      (w w' : World X)
      → Served w w'
      → Reach X.yrs w.manager
      → Reach X.yrs w'.manager × IsManager X.yrs w'.manager
  Served-IsManager w w' s r =
      let r' = Served-Reached s r in (r', Reach-IsManager X.yrs w'.manager r')

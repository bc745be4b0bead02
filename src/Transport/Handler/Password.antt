-- ===== src/Transport/Handler/Password.antt =====
-- crates/ussl-transport/src/handler.rs: what AUTH does.
use ussl.Prelude.{◌≡◌, refl, Bool, true, false, ◌||◌, Option, none, some, Bool-cases, inl, inr}
use ussl.Text.{Text, text_eq}
use ussl.Protocol.Command as Kind
use ussl.Protocol.Command.{Command, CommandKind}
use ussl.Protocol.Json.{Json}
use ussl.Transport.Handler.{
  Externals, World, Clock, Handler, handle_subscribe, handle_unsubscribe, contains,
}
use ussl.Transport.Handler.Whole.{
  handle_command, handle_kind, handle_auth, check_password, needs_auth,
}

or_false : (b : Bool) → b ≡ b || false
or_false true = refl
or_false false = refl

or_true : (b : Bool) → true ≡ b || true
or_true true = refl
or_true false = refl

module _ {F : Type 0} (X : Externals F) where
  -- Whether a command is AUTH with the expected password.
  abbrev pub opens : CommandKind F (Json X.serde.Number) → Option Text → Bool
  opens (Kind.auth password) (some expected) = text_eq expected password
  opens (Kind.auth password) none = false
  opens kind expected = false

  check_password-authenticated :
      (password : Text) (expected : Option Text) (h : Handler)
      → (check_password X password expected h).1.authenticated
        ≡ h.authenticated || opens (Kind.auth password) expected
  check_password-authenticated password none h = or_false h.authenticated
  check_password-authenticated password (some expected) h =
      elim (Bool-cases (text_eq expected password)) [
        | inl e ↦ rw e (or_true h.authenticated)
        | inr e ↦ rw e (or_false h.authenticated)
      ]

  handle_kind-authenticated :
      (now : Clock) (kind : CommandKind F (Json X.serde.Number)) (id : Option Text) (h : Handler)
      (w : World X)
      → (handle_kind X now kind id h w).handler.authenticated
        ≡ h.authenticated || opens kind h.password
  unfolding handle_kind
  handle_kind-authenticated now (Kind.auth password) id h w =
      unfold handle_auth in check_password-authenticated password h.password h
  handle_kind-authenticated now (Kind.subscribe pattern path) id h w =
      unfold handle_subscribe in
      elim (Bool-cases (contains h.subscriptions pattern)) [
        | inl e ↦ rw e (or_false h.authenticated)
        | inr e ↦ rw e (or_false h.authenticated)
      ]
  handle_kind-authenticated now (Kind.unsubscribe pattern) id h w =
      unfold handle_unsubscribe in or_false h.authenticated
  handle_kind-authenticated now _ id h w = or_false h.authenticated

  no_auth-opens :
      (kind : CommandKind F (Json X.serde.Number)) (h : Handler)
      → needs_auth X kind h ≡ true
      → h.authenticated ≡ h.authenticated || opens kind h.password
  no_auth-opens (Kind.auth password) h e = cc
  no_auth-opens _ h e = or_false h.authenticated

  -- A connection is authenticated after a command exactly if it was before, or the command is AUTH
  -- with its password.
  pub handle_command-authenticated :
      (now : Clock) (cmd : Command F (Json X.serde.Number)) (h : Handler) (w : World X)
      → (handle_command X now cmd h w).handler.authenticated
        ≡ h.authenticated || opens cmd.kind h.password
  unfolding handle_command
  handle_command-authenticated now cmd h w = elim (Bool-cases (needs_auth X cmd.kind h)) [
    | inl e ↦ rw e (no_auth-opens cmd.kind h e)
    | inr e ↦ rw e (handle_kind-authenticated now cmd.kind cmd.document_id h w)
  ]

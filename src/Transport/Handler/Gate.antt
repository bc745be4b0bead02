-- ===== src/Transport/Handler/Gate.antt =====
-- crates/ussl-transport/src/handler.rs: the authentication in front of the commands.
use ussl.Prelude.{
  ◌≡◌, refl, ◌∙◌, Bool, true, false, ◌++◌, Option, none, some, Bool-cases, inl, inr, arith,
}
use ussl.Text.{Text, text_eq}
use ussl.Protocol.Command as Kind
use ussl.Protocol.Command.{Command, CommandKind}
use ussl.Protocol.Json.{Json}
use ussl.Transport.Handler.{
  Externals, World, Clock, Handler, handle_subscribe, handle_unsubscribe, contains,
}
use ussl.Transport.Handler.Whole.{
  handle_command, handle_kind, handle_auth, check_password, needs_auth, is_open,
}
use ussl.Transport.Handler.Process.{check_limit, served, serve, is_unlimited, process}
use ussl.Protocol.Parser.{Parser}
use ussl.Transport.Handler.Rounds.{put_parser}
use ussl.Transport.Handler.Drain.{drain, drain-holds, process-holds}

-- What a connection does to its authentication: it stays once it is there, and comes with the password
-- alone; whether it is needed, the password and the client's name stay.
pub record Keeps (h h' : Handler) : Type 0 where
  pub require_auth : h'.require_auth ≡ h.require_auth
  pub password : h'.password ≡ h.password
  pub client_id : h'.client_id ≡ h.client_id
  pub authenticated : h.authenticated ≡ true → h'.authenticated ≡ true

Keeps-refl : (h : Handler) → Keeps h h
Keeps-refl h = record {
  require_auth = refl;
  password = refl;
  client_id = refl;
  authenticated = λ e. e;
}

Keeps-trans : {h h' h'' : Handler} → Keeps h h' → Keeps h' h'' → Keeps h h''
Keeps-trans k l = record {
  require_auth = l.require_auth ∙ k.require_auth;
  password = l.password ∙ k.password;
  client_id = l.client_id ∙ k.client_id;
  authenticated = λ e. l.authenticated (k.authenticated e);
}

module _ {F : Type 0} (X : Externals F) where
  check_password-Keeps :
      (password : Text) (expected : Option Text) (h : Handler)
      → Keeps h (check_password X password expected h).1
  check_password-Keeps password none h = Keeps-refl h
  check_password-Keeps password (some expected) h = elim (Bool-cases (text_eq expected password)) [
    | inl e ↦ rw e (record {
      require_auth = refl;
      password = refl;
      client_id = refl;
      authenticated = λ x. refl;
    })
    | inr e ↦ rw e (Keeps-refl h)
  ]

  subscribe-Keeps : (pattern : Text) (h : Handler) → Keeps h (handle_subscribe {F = F} pattern h).1
  unfolding handle_subscribe
  subscribe-Keeps pattern h = elim (Bool-cases (contains h.subscriptions pattern)) [
    | inl e ↦ rw e (Keeps-refl h)
    | inr e ↦
        rw e (record {
          require_auth = refl;
          password = refl;
          client_id = refl;
          authenticated = λ x. x;
        })
  ]

  handle_kind-Keeps :
      (now : Clock) (kind : CommandKind F (Json X.serde.Number)) (id : Option Text) (h : Handler)
      (w : World X)
      → Keeps h (handle_kind X now kind id h w).handler
  unfolding handle_kind
  handle_kind-Keeps now (Kind.auth password) id h w =
      unfold handle_auth in check_password-Keeps password h.password h
  handle_kind-Keeps now (Kind.subscribe pattern path) id h w = subscribe-Keeps pattern h
  handle_kind-Keeps now (Kind.unsubscribe pattern) id h w =
      unfold handle_unsubscribe in
      record { require_auth = refl; password = refl; client_id = refl; authenticated = λ x. x }
  handle_kind-Keeps now (Kind.create strategy ttl) id h w = Keeps-refl h
  handle_kind-Keeps now (Kind.get path) id h w = Keeps-refl h
  handle_kind-Keeps now (Kind.set path value) id h w = Keeps-refl h
  handle_kind-Keeps now (Kind.delete path) id h w = Keeps-refl h
  handle_kind-Keeps now (Kind.push path value) id h w = Keeps-refl h
  handle_kind-Keeps now (Kind.increment path delta) id h w = Keeps-refl h
  handle_kind-Keeps now (Kind.presence payload) id h w = Keeps-refl h
  handle_kind-Keeps now Kind.ping id h w = Keeps-refl h
  handle_kind-Keeps now Kind.quit id h w = Keeps-refl h
  handle_kind-Keeps now Kind.info id h w = Keeps-refl h
  handle_kind-Keeps now (Kind.keys pattern) id h w = Keeps-refl h
  handle_kind-Keeps now Kind.compact id h w = Keeps-refl h
  handle_kind-Keeps now (Kind.expire ttl_ms) id h w = Keeps-refl h
  handle_kind-Keeps now Kind.ttl id h w = Keeps-refl h
  handle_kind-Keeps now Kind.backup id h w = Keeps-refl h
  handle_kind-Keeps now (Kind.restore bytes) id h w = Keeps-refl h

  -- The kinds that need no authentication change nothing that is shared.
  is_open-world :
      (now : Clock) (kind : CommandKind F (Json X.serde.Number)) (id : Option Text) (h : Handler)
      (w : World X)
      → is_open X kind ≡ true
      → (handle_kind X now kind id h w).world ≡ w
  unfolding handle_kind
  is_open-world now (Kind.auth password) id h w e = refl
  is_open-world now Kind.ping id h w e = refl
  is_open-world now Kind.quit id h w e = refl
  is_open-world now _ id h w e = cc

  handle_command-Keeps :
      (now : Clock) (cmd : Command F (Json X.serde.Number)) (h : Handler) (w : World X)
      → Keeps h (handle_command X now cmd h w).handler
  unfolding handle_command
  handle_command-Keeps now cmd h w = elim (Bool-cases (needs_auth X cmd.kind h)) [
    | inl e ↦ rw e (Keeps-refl h)
    | inr e ↦ rw e (handle_kind-Keeps now cmd.kind cmd.document_id h w)
  ]

  handle_command-world :
      (now : Clock) (cmd : Command F (Json X.serde.Number)) (h : Handler) (w : World X)
      → h.require_auth ≡ true
      → h.authenticated ≡ false
      → (handle_command X now cmd h w).world ≡ w
  unfolding handle_command
  handle_command-world now cmd h w r a = elim (Bool-cases (needs_auth X cmd.kind h)) [
    | inl e ↦ rw e refl
    | inr e ↦ rw e (is_open-world now cmd.kind cmd.document_id h w (ground arith))
  ]

  check_limit-Keeps :
      (now : Clock) (kind : CommandKind F (Json X.serde.Number)) (h : Handler)
      → Keeps h (check_limit X now kind h).1
        × ((check_limit X now kind h).1.authenticated ≡ h.authenticated)
  unfolding check_limit
  check_limit-Keeps now kind h = elim (Bool-cases (is_unlimited X kind)) [
    | inl e ↦ rw e (Keeps-refl h, refl)
    | inr e ↦ rw e (
      record { require_auth = refl; password = refl; client_id = refl; authenticated = λ x. x },
      refl,
    )
  ]

  served-Keeps :
      (now : Clock) (cmd : Command F (Json X.serde.Number)) (l : Bool × Handler) (w : World X)
      → Keeps l.1 (served X now cmd l w).handler
        × (l.1.require_auth ≡ true → l.1.authenticated ≡ false → (served X now cmd l w).world ≡ w)
  served-Keeps now cmd (true, h) w =
      (handle_command-Keeps now cmd h w, handle_command-world now cmd h w)
  served-Keeps now cmd (false, h) w = (Keeps-refl h, λ r a. refl)

  serve-Keeps :
      (now : Clock) (cmd : Command F (Json X.serde.Number)) (h : Handler) (w : World X)
      → Keeps h (serve X now cmd h w).handler
        × (h.require_auth ≡ true → h.authenticated ≡ false → (serve X now cmd h w).world ≡ w)
  unfolding serve
  serve-Keeps now cmd h w =
      let (k, same) = check_limit-Keeps now cmd.kind h in
      let (l, shut) = served-Keeps now cmd (check_limit X now cmd.kind h) w in
      (Keeps-trans k l, λ r a. shut (k.require_auth ∙ r) (same ∙ a))

  -- Where a connection that needs authentication has none at the end, nothing shared has changed.
  abbrev Shut : Handler → World X → Handler → World X → Type 0
  Shut h w h' w' = Keeps h h' × (h.require_auth ≡ true → h'.authenticated ≡ false → w' ≡ w)

  put_parser-Keeps : (p : Parser) (h : Handler) → Keeps h (put_parser p h)
  put_parser-Keeps p h = record {
    require_auth = refl;
    password = refl;
    client_id = refl;
    authenticated = λ e. e;
  }

  was_false : (b c : Bool) → (b ≡ true → c ≡ true) → c ≡ false → b ≡ false
  was_false true c f e = let t = f refl in cc
  was_false false c f e = refl

  -- A round comes in front of what follows it.
  round-Shut :
      (now : Clock) (cmd : Command F (Json X.serde.Number)) (p : Parser) (h h' : Handler)
      (w w' : World X)
      → let s = serve X now cmd (put_parser p h) w in Shut s.handler s.world h' w' → Shut h w h' w'
  round-Shut now cmd p h h' w w' (l, rest) =
      let (k, shut) = serve-Keeps now cmd (put_parser p h) w in
      let s = serve X now cmd (put_parser p h) w in
      (
        Keeps-trans (put_parser-Keeps p h) (Keeps-trans k l),
        λ r a.
            let b = was_false s.handler.authenticated h'.authenticated l.authenticated a in
            rest (k.require_auth ∙ r) a
            ∙ shut r (was_false h.authenticated s.handler.authenticated k.authenticated b),
      )

  Shut-refl : (h : Handler) (w : World X) → Shut h w h w
  Shut-refl h w = (Keeps-refl h, λ r a. refl)

  drain-Shut :
      (now : Clock) (h : Handler) (w : World X)
      → Shut h w (drain X now h w).handler (drain X now h w).world
  drain-Shut now h w =
      drain-holds X now (λ h' w' run. Shut h' w' run.handler run.world) (λ h' w' e. Shut-refl h' w')
        (λ h' w' line r x e. (put_parser-Keeps (record { buffer = r }) h', λ q a. refl))
        (λ h' w' line r cmd e.
          let s = serve X now cmd (put_parser (record { buffer = r }) h') w' in
          round-Shut now cmd (record { buffer = r }) h' s.handler w' s.world
            (Shut-refl s.handler s.world))
        (λ h' w' line r cmd a run e o answer rest.
          round-Shut now cmd (record { buffer = r }) h' run.handler w' run.world rest)
        h w

  process-Shut :
      (now : Clock) (bytes : Text) (h : Handler) (w : World X)
      → Shut h w (process X now bytes h w).handler (process X now bytes h w).world
  process-Shut now bytes h w =
      process-holds X now bytes h w (λ run. Shut h w run.handler run.world)
        (λ e.
          let p : Parser = record { buffer = h.parser.buffer ++ bytes } in
          let (k, shut) = drain-Shut now (put_parser p h) w in
          (Keeps-trans (put_parser-Keeps p h) k, shut))
        (λ x. Shut-refl h w)

  pub process-Keeps :
      (now : Clock) (bytes : Text) (h : Handler) (w : World X)
      → Keeps h (process X now bytes h w).handler
  process-Keeps now bytes h w = (process-Shut now bytes h w).0

  -- Where a connection needs authentication and is not authenticated after a call of `process`, the
  -- call has changed nothing that connections share, neither the documents and presences nor the tasks
  -- that store documents, whatever the bytes were; and it still needs authentication, with the same
  -- password.
  pub process-gate :
      (now : Clock) (bytes : Text) (h : Handler) (w : World X)
      → h.require_auth ≡ true
      → (process X now bytes h w).handler.authenticated ≡ false
      → ((process X now bytes h w).world ≡ w)
        × ((process X now bytes h w).handler.require_auth ≡ true)
        × ((process X now bytes h w).handler.password ≡ h.password)
  process-gate now bytes h w r a =
      let (k, shut) = process-Shut now bytes h w in (shut r a, k.require_auth ∙ r, k.password)

-- ===== src/Daemon/Guard.antt =====
-- crates/usld/src/main.rs with crates/ussl-transport: what a password and TLS do for the clients of the
-- daemon.
use ussl.Prelude.{
  ◌≡◌, refl, ap, sym, ◌∙◌, Bool, true, false, Bool-cases, List, [], ◌∷◌, Option, none, some, inl,
  inr, ◌⊎◌, subst, some_inj, some-ne-none,
}
use ussl.Text.{Text}
use ussl.Transport.RateLimit.{RateLimitConfig}
use ussl.Transport.Handler.{
  Externals, World, Clock, Handler, with_auth, with_storage, with_rate_limit,
}
use ussl.Transport.Handler.Process.{process}
use ussl.Transport.Handler.Gate.{Keeps, process-Keeps, process-gate}
use ussl.Transport.Connection.{handler_for}
use ussl.Transport.Tls.{Loaded, from_pem, loaded, failed}
use ussl.Transport.Servers.{Listener, arrived, Protocol, tcp, websocket, server_of, accept_one}
use ussl.Daemon.{Args, rate_limit_config, has_database, Surroundings, or_bail, load_tls, start}
use ussl.Daemon.Settings.{Runs, start-Runs}

Loaded-cases {ℓ} :
    {E : Type 0} {A : Type ℓ} (o : Loaded E A)
    → ((a : A) × (o ≡ loaded a)) ⊎ ((e : E) × (o ≡ failed e))
Loaded-cases (loaded a) = inl (a, refl)
Loaded-cases (failed e) = inr (e, refl)

-- The handler of a connection to a server with a password.
needs_auth :
    (now : Clock) (id password : Text) (storage : Bool) (limit : Option RateLimitConfig)
    → let h =
        handler_for now id
          (record { password = some password; has_storage = storage; rate_limit = limit }) in
      (h.require_auth ≡ true) × (h.password ≡ some password)
unfolding handler_for with_auth with_storage with_rate_limit
needs_auth now id password true none = (refl, refl)
needs_auth now id password true (some config) = (refl, refl)
needs_auth now id password false none = (refl, refl)
needs_auth now id password false (some config) = (refl, refl)

module _ {F : Type 0} (X : Externals F) where
  -- What a connection reads, part by part, with the times of its calls of `process`.
  abbrev pub process_all : List (Clock × Text) → Handler → World X → Handler × World X
  process_all [] h w = (h, w)
  process_all ((now, bytes) ∷ reads) h w =
      let run = process X now bytes h w in process_all reads run.handler run.world

  process_all-Keeps :
      (reads : List (Clock × Text)) (h : Handler) (w : World X)
      → h.authenticated ≡ true
      → (process_all reads h w).0.authenticated ≡ true
  process_all-Keeps [] h w a = a
  process_all-Keeps ((now, bytes) ∷ reads) h w a =
      let run = process X now bytes h w in
      process_all-Keeps reads run.handler run.world
        (Keeps.authenticated (process-Keeps X now bytes h w) a)

  process_all-gate :
      (reads : List (Clock × Text)) (h : Handler) (w : World X)
      → h.require_auth ≡ true
      → (process_all reads h w).0.authenticated ≡ false
      → ((process_all reads h w).1 ≡ w)
        × ((process_all reads h w).0.require_auth ≡ true)
        × ((process_all reads h w).0.password ≡ h.password)
  process_all-gate [] h w r a = (refl, r, refl)
  process_all-gate ((now, bytes) ∷ reads) h w r a =
      let run = process X now bytes h w in
      let shut : run.handler.authenticated ≡ false = elim (Bool-cases run.handler.authenticated) [
        | inl t ↦ let u = process_all-Keeps reads run.handler run.world t in cc
        | inr f ↦ f
      ] in
      let (same, still, kept) = process-gate X now bytes h w r shut in
      let (later_same, later_still, later_kept) =
        process_all-gate reads run.handler run.world still a in
      (later_same ∙ same, later_still, later_kept ∙ kept)

module _ {F : Type 0} (X : Externals F) (S : Surroundings) where
  -- Where the daemon has been given a password, the calls of `process` of a connection of any server
  -- that runs change nothing that connections share, however many there are and whatever bytes they
  -- get, if the connection is not authenticated after the last of them; and it is then still held to
  -- that password.
  pub start-gate :
      (args : Args) (l : Listener S.rustls.Acceptor) (password : Text)
      → Runs (start S args) l
      → args.password ≡ some password
      → (now : Clock) (id : Text) (reads : List (Clock × Text)) (w : World X)
      → (process_all X reads (handler_for now id (server_of l)) w).0.authenticated ≡ false
      → let (h, w') = process_all X reads (handler_for now id (server_of l)) w in
        (w' ≡ w) × (h.require_auth ≡ true) × (h.password ≡ some password)
  start-gate args l password runs given now id reads w shut =
      let storage = has_database S.opens args.db in
      let limit = rate_limit_config args in
      let (t, e, same) = start-Runs S args l runs in
      let server : server_of l
          ≡ record { password = some password; has_storage = storage; rate_limit = limit } =
        ap server_of same
        ∙ ap (λ p. record { password = p; has_storage = storage; rate_limit = limit }) given in
      let held =
        subst
          (λ v.
            ((handler_for now id v).require_auth ≡ true)
            × ((handler_for now id v).password ≡ some password))
          (sym server) (needs_auth now id password storage limit) in
      let (same_world, still, kept) =
        process_all-gate X reads (handler_for now id (server_of l)) w held.0 shut in
      (same_world, still, kept ∙ held.1)

not_started :
    {A : Type 0} (p : Protocol) (peer_addr : Text) (upgrade : Bool) (l : Listener A) (a : A)
    → l.tls_config ≡ some a
    → (accept_one p (arrived peer_addr false upgrade) l).0 ≡ []
unfolding accept_one
not_started tcp peer_addr upgrade l a h = rw h refl
not_started websocket peer_addr upgrade l a h = rw h refl

module _ (S : Surroundings) where
  load_tls-loaded :
      (c k : Text) (t : Option S.rustls.Acceptor)
      → load_tls S (some c) (some k) ≡ some t
      → (a : S.rustls.Acceptor) × (t ≡ some a) × (from_pem S.rustls c k ≡ loaded a)
  load_tls-loaded c k t h = elim (Loaded-cases (from_pem S.rustls c k)) [
    | inl (a, e) ↦ (a, some_inj (sym h ∙ ap or_bail e), e)
    | inr (x, e) ↦ some-ne-none h (ap or_bail e)
  ]

  -- Where the daemon has been given both files for TLS: every server that runs has the acceptor that was
  -- made of them, and a connection whose handshake fails is not started, by either protocol.
  pub start-tls :
      (args : Args) (l : Listener S.rustls.Acceptor) (c k : Text)
      → Runs (start S args) l
      → args.tls_cert ≡ some c
      → args.tls_key ≡ some k
      → (a : S.rustls.Acceptor) × (from_pem S.rustls c k ≡ loaded a)
        × (l.tls_config ≡ some a)
        × ((p : Protocol) (peer_addr : Text) (upgrade : Bool)
            → (accept_one p (arrived peer_addr false upgrade) l).0 ≡ [])
  start-tls args l c k runs cert key =
      let (t, e, same) = start-Runs S args l runs in
      let (a, given, made) =
        load_tls-loaded c k t
          (sym (ap (λ o. load_tls S o args.tls_key) cert ∙ ap (load_tls S (some c)) key) ∙ e) in
      let config = ap (λ (x : Listener S.rustls.Acceptor). x.tls_config) same ∙ given in
      (a, made, config, λ p peer_addr upgrade. not_started p peer_addr upgrade l a config)

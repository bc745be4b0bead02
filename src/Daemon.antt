-- ===== src/Daemon.antt =====
-- crates/usld/src/main.rs: what the daemon makes of its arguments, and the task that collects expired
-- documents.
pub mod Settings
pub mod Guard
use ussl.Prelude.{
  ℕ, ◌*◌, ◌%◌, ◌^◌, Bool, false, true, not, ◌&&◌, Option, none, some, ltb, if◌then◌else◌,
}
use ussl.Text.{Text}
use ussl.Core.Manager.State as Manager
use ussl.Transport.RateLimit.{RateLimitConfig}
use ussl.Transport.Handler.{Externals, World}
use ussl.Transport.Tls.{Rustls, TlsError, Loaded, loaded, failed, from_pem}
use ussl.Transport.Servers.{
  Listener, new_listener, with_password, with_storage, with_rate_limit, with_tls,
}

-- `Args` without the file of a configuration, which no code reads, and the level of the log
pub record Args : Type 0 where
  pub no_tcp : Bool
  pub no_ws : Bool
  pub db : Option Text
  pub password : Option Text
  pub rate_limit : ℕ
  pub rate_burst : Option ℕ
  pub metrics_port : ℕ
  pub tls_cert : Option Text
  pub tls_key : Option Text
  pub bind : Text
  pub tcp_port : ℕ
  pub ws_port : ℕ

-- `args.rate_burst.unwrap_or(args.rate_limit * 2)`; the product is one of 32 bits
abbrev pub burst_of : Option ℕ → ℕ → ℕ
burst_of (some burst) rate = burst
burst_of none rate = (rate * 2) % 2 ^ 32

unfoldable pub rate_limit_config : Args → Option RateLimitConfig
rate_limit_config args =
    if ltb 0 args.rate_limit
    then some (record {
      requests_per_second = args.rate_limit;
      burst_size = burst_of args.rate_burst args.rate_limit;
    })
    else none

-- Whether there is a storage: `opens` says whether `SqliteStorage::new` succeeds at a path.
abbrev pub has_database : (Text → Bool) → Option Text → Bool
has_database opens (some path) = opens path
has_database opens none = false

-- What `main` finds around it: whether `SqliteStorage::new` succeeds at a path, whether an address and
-- a port parse as a `SocketAddr`, and TLS.
pub record Surroundings : Type 1 where
  pub opens : Text → Bool
  pub is_address : Text → ℕ → Bool
  pub rustls : Rustls

-- The servers that run: for each its settings. Otherwise `main` has returned an error.
pub data Startup (A : Type 0) : Type 0 where
  refused : Startup A
  running : Bool → Option (Listener A) → Option (Listener A) → Startup A

module _ {A : Type 0} where
  abbrev pub new_or_with_password : Option Text → Listener A
  new_or_with_password none = new_listener
  new_or_with_password (some password) = with_password password

  abbrev pub storing : Bool → Listener A → Listener A
  storing false l = l
  storing true l = with_storage l

  abbrev pub securing : Option A → Listener A → Listener A
  securing none l = l
  securing (some acceptor) l = with_tls acceptor l

  abbrev pub limiting : Option RateLimitConfig → Listener A → Listener A
  limiting none l = l
  limiting (some config) l = with_rate_limit config l

  -- how either server is made
  unfoldable pub make_server : (Text → Bool) → Args → Option A → Listener A
  make_server opens args tls_config = limiting (rate_limit_config args) (
      securing tls_config
        (storing (has_database opens args.db) (new_or_with_password args.password)))

  -- A server that is not disabled wants an address; none is an error.
  abbrev pub server_unless : Bool → Bool → Listener A → Option (Option (Listener A))
  server_unless true address l = some none
  server_unless false false l = none
  server_unless false true l = some (some l)

  -- `handles.is_empty()` refuses to start; the metrics server has a handle too.
  abbrev pub unless_empty : Bool → Option (Listener A) → Option (Listener A) → Startup A
  unless_empty false none none = refused
  unless_empty metrics tcp ws = running metrics tcp ws

  abbrev pub both_servers :
      Bool → Option (Option (Listener A)) → Option (Option (Listener A)) → Startup A
  both_servers metrics (some tcp) (some ws) = unless_empty metrics tcp ws
  both_servers metrics none ws = refused
  both_servers metrics (some tcp) none = refused

abbrev pub or_bail {ℓ} : {A : Type ℓ} → Loaded TlsError A → Option (Option A)
or_bail (loaded acceptor) = some (some acceptor)
or_bail (failed e) = none

module _ (S : Surroundings) where
  -- TLS where both files are given; none is an error.
  abbrev pub load_tls : Option Text → Option Text → Option (Option S.rustls.Acceptor)
  load_tls (some cert) (some key) = or_bail (from_pem S.rustls cert key)
  load_tls none key = some none
  load_tls (some cert) none = some none

  abbrev pub start_with : Args → Option (Option S.rustls.Acceptor) → Startup S.rustls.Acceptor
  start_with args none = refused
  start_with args (some tls_config) =
      let metrics = ltb 0 args.metrics_port in
      let l = make_server S.opens args tls_config in
      if metrics && not (S.is_address args.bind args.metrics_port)
      then refused
      else both_servers metrics (server_unless args.no_tcp (S.is_address args.bind args.tcp_port) l)
          (server_unless args.no_ws (S.is_address args.bind args.ws_port) l)

  -- `main` up to the wait for the signal that ends it
  unfoldable pub start : Args → Startup S.rustls.Acceptor
  start args = start_with args (load_tls args.tls_cert args.tls_key)

module _ {F : Type 0} (X : Externals F) where
  -- one tick of the task that collects
  unfoldable pub collect_garbage : ℕ → World X → World X
  collect_garbage now w = record w { manager = (Manager.gc X.yrs now w.manager).1 }

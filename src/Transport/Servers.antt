-- ===== src/Transport/Servers.antt =====
-- crates/ussl-transport/src/tcp.rs and websocket.rs: how a server is made, and the loop of `run`, which accepts
-- connections, names them and starts them. The connections themselves are Transport/Tcp and WebSocket.
pub mod Names
use ussl.Prelude.{
  ℕ, Bool, true, false, ◌&&◌, List, [], ◌∷◌, ◌++◌, Option, none, some, if◌then◌else◌,
}
use ussl.Prelude.Word.{add64}
use ussl.Text.{Text}
use ussl.Transport.RateLimit.{RateLimitConfig}
use ussl.Transport.Connection.{Server}
use ussl.Transport.Accept.{tcp_client_id, ws_client_id}

-- `TcpServer` and `WebSocketServer`, which have the same fields, with an acceptor of TLS of type `A`;
-- the manager and the address are left to their user.
pub record Listener (A : Type 0) : Type 0 where
  pub client_counter : ℕ
  pub password : Option Text
  pub has_storage : Bool
  pub rate_limit : Option RateLimitConfig
  pub tls_config : Option A

-- What `accept` gives: a connection from an address, with whether its TLS handshake and its upgrade to
-- a WebSocket succeed where they are tried, or an error.
pub data Arrival : Type 0 where
  arrived : Text → Bool → Bool → Arrival
  not_accepted : Arrival

pub data Protocol : Type 0 where
  tcp websocket : Protocol

module _ {A : Type 0} where
  unfoldable pub new_listener : Listener A
  new_listener = record {
    client_counter = 0;
    password = none;
    has_storage = false;
    rate_limit = none;
    tls_config = none;
  }

  unfoldable pub with_password : Text → Listener A
  with_password password = record new_listener { password = some password }

  unfoldable pub with_storage : Listener A → Listener A
  with_storage l = record l { has_storage = true }

  unfoldable pub with_rate_limit : RateLimitConfig → Listener A → Listener A
  with_rate_limit config l = record l { rate_limit = some config }

  unfoldable pub with_tls : A → Listener A → Listener A
  with_tls acceptor l = record l { tls_config = some acceptor }

  abbrev pub is_given : Option A → Bool
  is_given none = false
  is_given (some a) = true

  unfoldable pub is_tls_enabled : Listener A → Bool
  is_tls_enabled l = is_given l.tls_config

  -- what its connections see of a server
  abbrev pub server_of : Listener A → Server
  server_of l = record {
    password = l.password;
    has_storage = l.has_storage;
    rate_limit = l.rate_limit;
  }

  abbrev pub client_name : Protocol → Listener A → Text → Text
  client_name tcp l peer_addr = tcp_client_id peer_addr l.client_counter
  client_name websocket l peer_addr =
      ws_client_id (is_given l.tls_config) peer_addr l.client_counter

  -- Without TLS there is no handshake.
  abbrev pub handshaken : Option A → Bool → Bool
  handshaken none handshake = true
  handshaken (some acceptor) handshake = handshake

  abbrev pub admits_tcp : Option A → Bool → Bool
  admits_tcp tls_config handshake = handshaken tls_config handshake

  abbrev pub admits_websocket : Option A → Bool → Bool → Bool
  admits_websocket tls_config handshake upgrade = handshaken tls_config handshake && upgrade

  abbrev pub admits : Protocol → Listener A → Bool → Bool → Bool
  admits tcp l handshake upgrade = admits_tcp l.tls_config handshake
  admits websocket l handshake upgrade = admits_websocket l.tls_config handshake upgrade

  -- One round of the loop: the clients whose connection is started.
  unfoldable pub accept_one : Protocol → Arrival → Listener A → List Text × Listener A
  accept_one p (arrived peer_addr handshake upgrade) l = (
    if admits p l handshake upgrade then client_name p l peer_addr ∷ [] else [],
    record l { client_counter = add64 l.client_counter 1 },
  )
  accept_one p not_accepted l = ([], l)

  unfoldable pub accept_all : Protocol → List Arrival → Listener A → List Text × Listener A
  accept_all p [] l = ([], l)
  accept_all p (a ∷ as') l =
      let (started, l1) = accept_one p a l in
      let (later, l2) = accept_all p as' l1 in (started ++ later, l2)

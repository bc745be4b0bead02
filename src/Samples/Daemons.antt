-- ===== src/Samples/Daemons.antt =====
-- A daemon with a password and TLS, and what its servers accept.
use ussl.Prelude.{◌≡◌, refl, Bool, true, false, List, [], ◌∷◌, ◌++◌, none, some, inl, arith}
use ussl.Text.{Text, codes, text_eq}
use ussl.Text.Space.{trim, trim_end, skip_space, space_length}
use ussl.Text.Case.{to_uppercase, upper_from}
use ussl.Text.Utf8.{from_utf8_lossy, lossy_from}
use ussl.Protocol.Parser.{feed, split_line, read_line, without_return, parse_line, dispatch, parse}
use ussl.Protocol.Options.{parse_set}
use ussl.Protocol.Tokenizer.{next_token, skip_spaces, read_token, span_word}
use ussl.Transport.Handler.{Clock, with_auth, with_storage}
use ussl.Transport.Handler.Whole.{handle_command, handle_kind}
use ussl.Transport.Handler.Process.{process, process_loop, serve, check_limit}
use ussl.Transport.Connection.{handler_for}
use ussl.Transport.Tls.{
  pkcs8_key, other, Rustls, loaded, load_certs, load_private_key, find_key, from_pem,
}
use ussl.Transport.Servers.{
  Listener, Arrival, arrived, not_accepted, Protocol, tcp, websocket, new_listener, with_password,
  with_tls, server_of, accept_all, accept_one,
}
use ussl.Transport.Servers as Servers
use ussl.Transport.Servers.Names.{Distinct, accept_all-Distinct}
use ussl.Daemon.{Args, Surroundings, rate_limit_config, make_server, start}
use ussl.Daemon.Settings.{Runs, settings}
use ussl.Daemon.Guard.{process_all, start-gate, start-tls}
use ussl.Samples.Connections.{externals, noon, fresh, first_part}

-- files whose certificate and key are their first bytes
abbrev pem : Rustls
pem = record {
  Certificate = Text;
  Key = Text;
  Acceptor = Text;
  open_file = λ path. loaded path;
  certs = λ file. loaded (file ∷ []);
  items = λ file. other ∷ pkcs8_key file ∷ [];
  with_single_cert = λ certs key. loaded (codes "ready");
}

abbrev around : Surroundings
around = record { opens = λ path. true; is_address = λ bind port. true; rustls = pem }

abbrev arguments : Args
arguments = record {
  no_tcp = false;
  no_ws = true;
  db = some (codes "documents.db");
  password = some (codes "pw");
  rate_limit = 0;
  rate_burst = none;
  metrics_port = 0;
  tls_cert = some (codes "cert.pem");
  tls_key = some (codes "key.pem");
  bind = codes "0.0.0.0";
  tcp_port = 6380;
  ws_port = 6381;
}

abbrev listener : Listener Text
listener = settings (some (codes "pw")) true none (some (codes "ready"))

daemon-Runs : Runs (start around arguments) listener
unfolding start make_server new_listener with_password Servers.with_storage with_tls
    rate_limit_config from_pem load_certs load_private_key find_key
daemon-Runs = inl refl

abbrev reads : List (Clock × Text)
reads = (noon, first_part) ∷ (noon, codes "PING" ++ 10 ∷ []) ∷ []

still_shut :
    (process_all externals reads
      (handler_for noon (codes "tcp:a:0") (server_of listener))
      fresh).0.authenticated
    ≡ false
unfolding process process_loop feed parse split_line read_line without_return from_utf8_lossy
    lossy_from parse_line trim trim_end skip_space space_length next_token skip_spaces read_token
    span_word to_uppercase upper_from dispatch text_eq serve check_limit handle_command handle_kind
    handler_for with_auth with_storage parse_set
still_shut = refl

start-gate_example :
    let (h, w) =
      process_all externals reads (handler_for noon (codes "tcp:a:0") (server_of listener)) fresh in
    (w ≡ fresh) × (h.require_auth ≡ true) × (h.password ≡ some (codes "pw"))
start-gate_example =
    start-gate externals around arguments listener (codes "pw") daemon-Runs refl noon
      (codes "tcp:a:0") reads fresh still_shut

start-tls_example :
    (a : Text) × (from_pem pem (codes "cert.pem") (codes "key.pem") ≡ loaded a)
    × (listener.tls_config ≡ some a)
    × ((p : Protocol) (peer_addr : Text) (upgrade : Bool)
        → (accept_one p (arrived peer_addr false upgrade) listener).0 ≡ [])
start-tls_example =
    start-tls around arguments listener (codes "cert.pem") (codes "key.pem") daemon-Runs refl refl

abbrev arrivals : List Arrival
arrivals =
    arrived (codes "10.0.0.7:51") true true
    ∷ not_accepted
    ∷ arrived (codes "10.0.0.7:51") false true
    ∷ arrived (codes "10.0.0.7:51") true true
    ∷ []

accept_all-Distinct_example : Distinct (accept_all websocket arrivals listener).0
accept_all-Distinct_example = accept_all-Distinct websocket arrivals listener (omega arith)

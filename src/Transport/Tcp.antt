-- ===== src/Transport/Tcp.antt =====
-- crates/ussl-transport/src/tcp.rs: `handle_connection` as a machine on events. The socket and the
-- channel of deltas say which event comes next, and which writes succeed.
use ussl.Prelude.{ℕ, true, Bool, List, [], ◌∷◌}
use ussl.Text.{Text}
use ussl.Core.Manager.State.{Delta}
use ussl.Protocol.Response.{Response, encode}
use ussl.Transport.Handler.{Externals, World, Clock}
use ussl.Transport.Connection.{
  Server, Status, serving, Connection, connect, close, receive, deliver,
}

-- What `select!` gives: a part of the input, with the outcomes of the writes behind it, the end of the
-- input, an error of the input; a delta, with the outcome of its write, a lag, or the end of the
-- channel. Between two of them other connections may make anything of what is shared: `meanwhile`.
pub data Event {F : Type 0} (X : Externals F) : Type 0 where
  read : Clock → Text → List Bool → Event X
  disconnected : Event X
  read_error : Event X
  update : Delta → List Bool → Event X
  lagged : ℕ → Event X
  channel_closed : Event X
  meanwhile : World X → Event X

module _ {F : Type 0} (X : Externals F) where
  abbrev pub TcpConnection : Type 0
  TcpConnection = Connection X Text

  -- `response.encode()`
  abbrev pub bytes_of_response : Response F → Text
  bytes_of_response r = encode X.value_to_json r

  -- one round of the loop
  abbrev pub on_event : Event X → TcpConnection → TcpConnection
  on_event (read now bytes writes) c = receive X Text bytes_of_response true now bytes writes c
  on_event disconnected c = close X Text c
  on_event read_error c = close X Text c
  on_event (update delta writes) c = deliver X Text bytes_of_response delta writes c
  on_event (lagged n) c = c
  on_event (meanwhile w) c = record c { world = w }
  on_event channel_closed c = close X Text c

  abbrev pub step : Event X → Status → TcpConnection → TcpConnection
  step e serving c = on_event e c
  step e _ c = c

  -- the loop on the events that come
  unfoldable pub run_events : List (Event X) → TcpConnection → TcpConnection
  run_events [] c = c
  run_events (e ∷ es) c = run_events es (step e c.status c)

  -- `handle_connection`
  unfoldable pub handle_connection :
      Clock → Text → Server → List (Event X) → World X → TcpConnection
  handle_connection now client_id s es w = run_events es (connect X Text now client_id s w)

-- ===== src/Transport/WebSocket.antt =====
-- crates/ussl-transport/src/websocket.rs: `handle_ws_connection` as a machine on events. Frames come
-- from `tokio_tungstenite`.
use ussl.Prelude.{ℕ, true, false, Bool, List, [], ◌∷◌, ◌++◌, ◌==◌, if◌then◌else◌}
use ussl.Text.{Text}
use ussl.Text.Utf8.{from_utf8_lossy}
use ussl.Core.Manager.State.{Delta}
use ussl.Protocol.Response.{Response, encode}
use ussl.Transport.Handler.{Externals, World, Clock}
use ussl.Transport.Connection.{
  Server, Status, serving, failed, Connection, connect, leave, close, receive, deliver, next_write,
}

-- A message that is sent.
pub data Message : Type 0 where
  text : Text → Message
  binary : Text → Message
  pong : Text → Message

-- What `select!` gives: a frame of text or of bytes, with the outcomes of the writes behind it, a ping,
-- the end of the connection, another frame, an error; and what the channel of deltas gives.
-- Between two of them other connections may make anything of what is shared: `meanwhile`.
pub data Event {F : Type 0} (X : Externals F) : Type 0 where
  text_frame : Clock → Text → List Bool → Event X
  binary_frame : Clock → Text → List Bool → Event X
  ping_frame : Text → List Bool → Event X
  disconnected : Event X
  other_frame : Event X
  read_error : Event X
  update : Delta → List Bool → Event X
  lagged : ℕ → Event X
  channel_closed : Event X
  meanwhile : World X → Event X

-- `data.ends_with(b"\n")`
unfoldable pub ends_line : Text → Bool
ends_line [] = false
ends_line (c ∷ []) = c == 10
ends_line (c ∷ d ∷ s) = ends_line (d ∷ s)

-- the bytes of a frame of text, with a line end
unfoldable pub line_of : Text → Text
line_of bytes = if ends_line bytes then bytes else bytes ++ 13 ∷ 10 ∷ []

module _ {F : Type 0} (X : Externals F) where
  abbrev pub WsConnection : Type 0
  WsConnection = Connection X Message

  abbrev pub text_message : Response F → Message
  text_message r = text (from_utf8_lossy (encode X.value_to_json r))

  abbrev pub binary_message : Response F → Message
  binary_message r = binary (encode X.value_to_json r)

  abbrev pub send_pong : Text → Bool → WsConnection → WsConnection
  send_pong payload true c = record c { sent = c.sent ++ pong payload ∷ [] }
  send_pong payload false c = leave X Message failed c

  -- one round of the loop; the answers to a frame of bytes are not searched for the answer to QUIT
  abbrev pub on_event : Event X → WsConnection → WsConnection
  on_event (text_frame now bytes writes) c =
      receive X Message text_message true now (line_of bytes) writes c
  on_event (binary_frame now bytes writes) c =
      receive X Message binary_message false now bytes writes c
  on_event (ping_frame payload writes) c = send_pong payload (next_write writes).0 c
  on_event disconnected c = close X Message c
  on_event other_frame c = c
  on_event read_error c = close X Message c
  on_event (update delta writes) c = deliver X Message text_message delta writes c
  on_event (lagged n) c = c
  on_event (meanwhile w) c = record c { world = w }
  on_event channel_closed c = close X Message c

  abbrev pub step : Event X → Status → WsConnection → WsConnection
  step e serving c = on_event e c
  step e _ c = c

  unfoldable pub run_events : List (Event X) → WsConnection → WsConnection
  run_events [] c = c
  run_events (e ∷ es) c = run_events es (step e c.status c)

  -- `handle_ws_connection`
  unfoldable pub handle_ws_connection :
      Clock → Text → Server → List (Event X) → World X → WsConnection
  handle_ws_connection now client_id s es w = run_events es (connect X Message now client_id s w)

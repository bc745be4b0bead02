-- ===== src/Transport/Written.antt =====
-- crates/ussl-transport/src/tcp.rs and websocket.rs: a connection whose writes succeed does not end with an
-- error.
use ussl.Prelude.{◌≡◌, ◌≢◌, refl, Bool, true, false, List, [], ◌∷◌, ◌++◌, All, Bool-cases, inl, inr}
use ussl.Text.{Text}
use ussl.Core.Manager.State.{Delta}
use ussl.Protocol.Response.{Response}
use ussl.Transport.Handler.{Externals, World, Clock, matches_subscription}
use ussl.Transport.Handler.Process.{Ending, waiting, refused, hung, exhausted, process}
use ussl.Transport.Connection.{
  Server, Status, serving, closed, failed, stuck, Sending, all_sent, write_failed, said_goodbye,
  next_write, is_goodbye, send_responses, Connection, connect, close, leave, after_sending, answer,
  receive, deliver,
}
use ussl.Transport.Tcp as Tcp
use ussl.Transport.WebSocket as WebSocket

module _ {F : Type 0} (X : Externals F) (M : Type 0) where
  -- Every write of which the outcome is known succeeds.
  abbrev pub AllWritten : List Bool → Type 0
  AllWritten writes = All (λ b. b ≡ true) writes

  -- the writes behind a successful one
  next_write-AllWritten :
      (writes : List Bool)
      → AllWritten writes
      → ((next_write writes).0 ≡ true) × AllWritten (next_write writes).1
  next_write-AllWritten [] h = (refl, tt)
  next_write-AllWritten (b ∷ writes) h = h

  send_responses-written :
      (message : Response F → M) (quits : Bool) (rs : List (Response F)) (writes : List Bool)
      (sent : List M)
      → AllWritten writes
      → (send_responses message quits rs writes sent).0 ≢ write_failed
  unfolding send_responses
  send_responses-written message quits [] writes sent h = λ e. cc
  send_responses-written message quits (r ∷ rs) writes sent h =
      let (now, later) = next_write-AllWritten writes h in
      let sent' = sent ++ message r ∷ [] in
      let rest = send_responses-written message quits rs (next_write writes).1 sent' later in
      elim (Bool-cases quits) [
        | inl q ↦ (elim (Bool-cases (is_goodbye r)) [
          | inl g ↦ rw (now, q, g, send_responses) (λ e. cc)
          | inr g ↦ rw (now, q, g, send_responses) rest
        ])
        | inr q ↦ rw (now, q, send_responses) rest
      ]

  after_sending-unfailed :
      (r : Sending × List M) (c : Connection X M)
      → c.status ≡ serving
      → r.0 ≢ write_failed
      → (after_sending X M r c).status ≢ failed
  unfolding close leave
  after_sending-unfailed (all_sent, sent) c s n = λ e. cc
  after_sending-unfailed (write_failed, sent) c s n = absurd (n refl)
  after_sending-unfailed (said_goodbye, sent) c s n = λ e. cc

  answer-unfailed :
      (message : Response F → M) (quits : Bool) (writes : List Bool) (ending : Ending)
      (rs : List (Response F)) (c : Connection X M)
      → c.status ≡ serving
      → AllWritten writes
      → (answer X M message quits writes ending rs c).status ≢ failed
  answer-unfailed message quits writes waiting rs c s h =
      after_sending-unfailed _ c s (send_responses-written message quits rs writes c.sent h)
  answer-unfailed message quits writes refused rs c s h =
      after_sending-unfailed _ c s (send_responses-written message quits rs writes c.sent h)
  answer-unfailed message quits writes hung rs c s h = λ e. cc
  answer-unfailed message quits writes exhausted rs c s h = λ e. cc

  receive-unfailed :
      (message : Response F → M) (quits : Bool) (now : Clock) (bytes : Text) (writes : List Bool)
      (c : Connection X M)
      → c.status ≡ serving
      → AllWritten writes
      → (receive X M message quits now bytes writes c).status ≢ failed
  unfolding receive
  receive-unfailed message quits now bytes writes c s h =
      let run = process X now bytes c.handler c.world in
      answer-unfailed message quits writes run.ending run.responses
        (record c { handler = run.handler; world = run.world }) s h

  deliver-unfailed :
      (message : Response F → M) (delta : Delta) (writes : List Bool) (c : Connection X M)
      → c.status ≡ serving
      → (deliver X M message delta writes c).status ≢ failed
  unfolding deliver close leave
  deliver-unfailed message delta writes c s =
      elim (Bool-cases (matches_subscription delta c.handler)) [
        | inl m ↦ (elim (Bool-cases (next_write writes).0) [
          | inl b ↦ rw (m, b) (λ e. cc)
          | inr b ↦ rw (m, b) (λ e. cc)
        ])
        | inr m ↦ rw m (λ e. cc)
      ]

module _ {F : Type 0} (X : Externals F) where
  -- Every response to this event is written, as far as the outcomes of the writes are known.
  abbrev pub TcpWritten : Tcp.Event X → Type 0
  TcpWritten (Tcp.read now bytes writes) = AllWritten X Text writes
  TcpWritten _ = Unit

  abbrev pub WsWritten : WebSocket.Event X → Type 0
  WsWritten (WebSocket.text_frame now bytes writes) = AllWritten X WebSocket.Message writes
  WsWritten (WebSocket.binary_frame now bytes writes) = AllWritten X WebSocket.Message writes
  WsWritten (WebSocket.ping_frame payload writes) = AllWritten X WebSocket.Message writes
  WsWritten _ = Unit

  tcp_event-unfailed :
      (e : Tcp.Event X) (c : Connection X Text)
      → c.status ≡ serving
      → TcpWritten e
      → (Tcp.on_event X e c).status ≢ failed
  unfolding close leave
  tcp_event-unfailed (Tcp.read now bytes writes) c s h =
      receive-unfailed X Text _ true now bytes writes c s h
  tcp_event-unfailed Tcp.disconnected c s h = λ e. cc
  tcp_event-unfailed Tcp.read_error c s h = λ e. cc
  tcp_event-unfailed (Tcp.update delta writes) c s h = deliver-unfailed X Text _ delta writes c s
  tcp_event-unfailed (Tcp.lagged k) c s h = λ e. cc
  tcp_event-unfailed Tcp.channel_closed c s h = λ e. cc
  tcp_event-unfailed (Tcp.meanwhile w) c s h = λ e. cc

  tcp_step-unfailed :
      (e : Tcp.Event X) (s : Status) (c : Connection X Text)
      → c.status ≡ s
      → TcpWritten e
      → c.status ≢ failed
      → (Tcp.step X e s c).status ≢ failed
  tcp_step-unfailed e serving c k h n = tcp_event-unfailed e c k h
  tcp_step-unfailed e closed c k h n = n
  tcp_step-unfailed e failed c k h n = n
  tcp_step-unfailed e stuck c k h n = n

  pub tcp_run-unfailed :
      (es : List (Tcp.Event X)) (c : Connection X Text)
      → All TcpWritten es
      → c.status ≢ failed
      → (Tcp.run_events X es c).status ≢ failed
  unfolding Tcp.run_events
  tcp_run-unfailed [] c h n = n
  tcp_run-unfailed (e ∷ es) c h n =
      tcp_run-unfailed es _ h.1 (tcp_step-unfailed e c.status c refl h.0 n)

  send_pong-unfailed :
      (payload : Text) (writes : List Bool) (c : Connection X WebSocket.Message)
      → c.status ≡ serving
      → AllWritten X WebSocket.Message writes
      → (WebSocket.send_pong X payload (next_write writes).0 c).status ≢ failed
  send_pong-unfailed payload [] c s h = λ e. cc
  send_pong-unfailed payload (true ∷ writes) c s h = λ e. cc
  send_pong-unfailed payload (false ∷ writes) c s h = let x = h.0 in cc

  ws_event-unfailed :
      (e : WebSocket.Event X) (c : Connection X WebSocket.Message)
      → c.status ≡ serving
      → WsWritten e
      → (WebSocket.on_event X e c).status ≢ failed
  unfolding close leave
  ws_event-unfailed (WebSocket.text_frame now bytes writes) c s h =
      receive-unfailed X WebSocket.Message _ true now _ writes c s h
  ws_event-unfailed (WebSocket.binary_frame now bytes writes) c s h =
      receive-unfailed X WebSocket.Message _ false now bytes writes c s h
  ws_event-unfailed (WebSocket.ping_frame payload writes) c s h =
      send_pong-unfailed payload writes c s h
  ws_event-unfailed (WebSocket.update delta writes) c s h =
      deliver-unfailed X WebSocket.Message _ delta writes c s
  ws_event-unfailed WebSocket.disconnected c s h = λ e. cc
  ws_event-unfailed WebSocket.other_frame c s h = λ e. cc
  ws_event-unfailed WebSocket.read_error c s h = λ e. cc
  ws_event-unfailed (WebSocket.lagged k) c s h = λ e. cc
  ws_event-unfailed WebSocket.channel_closed c s h = λ e. cc
  ws_event-unfailed (WebSocket.meanwhile w) c s h = λ e. cc

  ws_step-unfailed :
      (e : WebSocket.Event X) (s : Status) (c : Connection X WebSocket.Message)
      → c.status ≡ s
      → WsWritten e
      → c.status ≢ failed
      → (WebSocket.step X e s c).status ≢ failed
  ws_step-unfailed e serving c k h n = ws_event-unfailed e c k h
  ws_step-unfailed e closed c k h n = n
  ws_step-unfailed e failed c k h n = n
  ws_step-unfailed e stuck c k h n = n

  pub ws_run-unfailed :
      (es : List (WebSocket.Event X)) (c : Connection X WebSocket.Message)
      → All WsWritten es
      → c.status ≢ failed
      → (WebSocket.run_events X es c).status ≢ failed
  unfolding WebSocket.run_events
  ws_run-unfailed [] c h n = n
  ws_run-unfailed (e ∷ es) c h n =
      ws_run-unfailed es _ h.1 (ws_step-unfailed e c.status c refl h.0 n)

  pub connect-unfailed :
      (M : Type 0) (now : Clock) (client : Text) (s : Server) (w : World X)
      → (connect X M now client s w).status ≢ failed
  unfolding connect
  connect-unfailed M now client s w = λ e. cc

-- ===== src/Transport/Closed.antt =====
-- crates/ussl-transport/src/tcp.rs and websocket.rs: a connection that has been closed.
use ussl.Prelude.{
  ◌≡◌, ◌≢◌, ◌++◌, All, ◌∙◌, refl, Bool, true, false, List, [], ◌∷◌, Option, none, some,
}
use ussl.Text.{Text}
use ussl.Core.Manager.State.{get_presence}
use ussl.Core.Manager.Presences.{count_client}
use ussl.Transport.RateLimit.{RateLimitConfig}
use ussl.Transport.Handler.{
  Externals, World, Clock, Handler, new_handler, with_auth, with_storage, with_rate_limit,
}
use ussl.Transport.Connection.{
  Server, Status, serving, closed, failed, stuck, Connection, close, leave, connect, authenticating,
  storing, limiting, handler_for, next_write,
}
use ussl.Transport.Connection.Orderly.{
  IsOrderly, close-IsOrderly, not_closed-IsOrderly, receive-IsOrderly, deliver-IsOrderly,
}
use ussl.Transport.Written.{
  TcpWritten, WsWritten, tcp_run-unfailed, ws_run-unfailed, connect-unfailed,
}
use ussl.Transport.Tcp as Tcp
use ussl.Transport.WebSocket as WebSocket

storing-client_id : (b : Bool) (h : Handler) → (storing b h).client_id ≡ h.client_id
unfolding with_storage
storing-client_id true h = refl
storing-client_id false h = refl

limiting-client_id :
    (now : Clock) (o : Option RateLimitConfig) (h : Handler)
    → (limiting now o h).client_id ≡ h.client_id
unfolding with_rate_limit
limiting-client_id now (some config) h = refl
limiting-client_id now none h = refl

authenticating-client_id :
    (client : Text) (o : Option Text) → (authenticating client o).client_id ≡ client
unfolding with_auth new_handler
authenticating-client_id client (some pwd) = refl
authenticating-client_id client none = refl

handler_for-client_id :
    (now : Clock) (client : Text) (s : Server) → (handler_for now client s).client_id ≡ client
unfolding handler_for
handler_for-client_id now client s =
    limiting-client_id now s.rate_limit _
    ∙ storing-client_id s.has_storage _
    ∙ authenticating-client_id client s.password

module _ {F : Type 0} (X : Externals F) where
  connect-IsOrderly :
      (M : Type 0) (now : Clock) (client : Text) (s : Server) (w : World X)
      → IsOrderly X M client (connect X M now client s w)
  unfolding connect
  connect-IsOrderly M now client s w =
      not_closed-IsOrderly X M client _ serving (λ k. cc) refl (handler_for-client_id now client s)

  tcp_event :
      (client : Text) (e : Tcp.Event X) (c : Connection X Text)
      → c.status ≡ serving
      → c.handler.client_id ≡ client
      → IsOrderly X Text client (Tcp.on_event X e c)
  tcp_event client (Tcp.read now bytes writes) c s n =
      receive-IsOrderly X Text client _ true now bytes writes c s n
  tcp_event client Tcp.disconnected c s n = close-IsOrderly X Text client c n
  tcp_event client Tcp.read_error c s n = close-IsOrderly X Text client c n
  tcp_event client (Tcp.update delta writes) c s n =
      deliver-IsOrderly X Text client _ delta writes c s n
  tcp_event client (Tcp.lagged k) c s n = not_closed-IsOrderly X Text client c serving (λ x. cc) s n
  tcp_event client Tcp.channel_closed c s n = close-IsOrderly X Text client c n
  tcp_event client (Tcp.meanwhile w) c s n =
      not_closed-IsOrderly X Text client _ serving (λ x. cc) s n

  tcp_step :
      (client : Text) (e : Tcp.Event X) (s : Status) (c : Connection X Text)
      → c.status ≡ s
      → IsOrderly X Text client c
      → IsOrderly X Text client (Tcp.step X e s c)
  tcp_step client e serving c k h = tcp_event client e c k h.named
  tcp_step client e closed c k h = h
  tcp_step client e failed c k h = h
  tcp_step client e stuck c k h = h

  tcp_run :
      (client : Text) (es : List (Tcp.Event X)) (c : Connection X Text)
      → IsOrderly X Text client c
      → IsOrderly X Text client (Tcp.run_events X es c)
  unfolding Tcp.run_events
  tcp_run client [] c h = h
  tcp_run client (e ∷ es) c h = tcp_run client es _ (tcp_step client e c.status c refl h)

  send_pong-IsOrderly :
      (client payload : Text) (b : Bool) (c : Connection X WebSocket.Message)
      → c.status ≡ serving
      → c.handler.client_id ≡ client
      → IsOrderly X WebSocket.Message client (WebSocket.send_pong X payload b c)
  unfolding leave
  send_pong-IsOrderly client payload true c s n =
      not_closed-IsOrderly X WebSocket.Message client _ serving (λ x. cc) s n
  send_pong-IsOrderly client payload false c s n =
      not_closed-IsOrderly X WebSocket.Message client _ failed (λ x. cc) refl n

  ws_event :
      (client : Text) (e : WebSocket.Event X) (c : Connection X WebSocket.Message)
      → c.status ≡ serving
      → c.handler.client_id ≡ client
      → IsOrderly X WebSocket.Message client (WebSocket.on_event X e c)
  ws_event client (WebSocket.text_frame now bytes writes) c s n =
      receive-IsOrderly X WebSocket.Message client _ true now _ writes c s n
  ws_event client (WebSocket.binary_frame now bytes writes) c s n =
      receive-IsOrderly X WebSocket.Message client _ false now bytes writes c s n
  ws_event client (WebSocket.ping_frame payload writes) c s n =
      send_pong-IsOrderly client payload (next_write writes).0 c s n
  ws_event client (WebSocket.update delta writes) c s n =
      deliver-IsOrderly X WebSocket.Message client _ delta writes c s n
  ws_event client WebSocket.other_frame c s n =
      not_closed-IsOrderly X WebSocket.Message client c serving (λ x. cc) s n
  ws_event client (WebSocket.lagged k) c s n =
      not_closed-IsOrderly X WebSocket.Message client c serving (λ x. cc) s n
  ws_event client (WebSocket.meanwhile w) c s n =
      not_closed-IsOrderly X WebSocket.Message client _ serving (λ x. cc) s n
  ws_event client _ c s n = close-IsOrderly X WebSocket.Message client c n

  ws_step :
      (client : Text) (e : WebSocket.Event X) (s : Status) (c : Connection X WebSocket.Message)
      → c.status ≡ s
      → IsOrderly X WebSocket.Message client c
      → IsOrderly X WebSocket.Message client (WebSocket.step X e s c)
  ws_step client e serving c k h = ws_event client e c k h.named
  ws_step client e closed c k h = h
  ws_step client e failed c k h = h
  ws_step client e stuck c k h = h

  ws_run :
      (client : Text) (es : List (WebSocket.Event X)) (c : Connection X WebSocket.Message)
      → IsOrderly X WebSocket.Message client c
      → IsOrderly X WebSocket.Message client (WebSocket.run_events X es c)
  unfolding WebSocket.run_events
  ws_run client [] c h = h
  ws_run client (e ∷ es) c h = ws_run client es _ (ws_step client e c.status c refl h)

  -- the end of the input ends the loop
  tcp_disconnected :
      (es : List (Tcp.Event X)) (c : Connection X Text)
      → (Tcp.run_events X (es ++ Tcp.disconnected ∷ []) c).status ≢ serving
  unfolding Tcp.run_events close leave
  tcp_disconnected [] c = left c.status refl
    where
      left : (s : Status) → c.status ≡ s → (Tcp.step X Tcp.disconnected s c).status ≢ serving
      left serving k = λ e. cc
      left closed k = λ e. cc
      left failed k = λ e. cc
      left stuck k = λ e. cc
  tcp_disconnected (e ∷ es) c = tcp_disconnected es _

  ws_disconnected :
      (es : List (WebSocket.Event X)) (c : Connection X WebSocket.Message)
      → (WebSocket.run_events X (es ++ WebSocket.disconnected ∷ []) c).status ≢ serving
  unfolding WebSocket.run_events close leave
  ws_disconnected [] c = left c.status refl
    where
      left :
          (s : Status)
          → c.status ≡ s
          → (WebSocket.step X WebSocket.disconnected s c).status ≢ serving
      left serving k = λ e. cc
      left closed k = λ e. cc
      left failed k = λ e. cc
      left stuck k = λ e. cc
  ws_disconnected (e ∷ es) c = ws_disconnected es _

  ended : (s : Status) → s ≢ serving → s ≢ failed → s ≢ stuck → s ≡ closed
  ended serving a b c = absurd (a refl)
  ended closed a b c = refl
  ended failed a b c = absurd (b refl)
  ended stuck a b c = absurd (c refl)

  -- If the responses and the answers to pings of a connection of either kind are all written, and no
  -- command of it fails to return: once its input has ended, whatever has come over it before and
  -- whatever other connections did in between, its client is present at no document. A write of a
  -- delta may fail.
  pub closed-absent :
      (now : Clock) (client : Text) (s : Server) (w : World X) (es : List (Tcp.Event X))
      (fs : List (WebSocket.Event X)) (j : Text)
      → let tcp = Tcp.handle_connection X now client s (es ++ Tcp.disconnected ∷ []) w in
        let ws =
          WebSocket.handle_ws_connection X now client s (fs ++ WebSocket.disconnected ∷ []) w in
        All (TcpWritten X) (es ++ Tcp.disconnected ∷ [])
        → All (WsWritten X) (fs ++ WebSocket.disconnected ∷ [])
        → tcp.status ≢ stuck
        → ws.status ≢ stuck
        → (count_client client (get_presence X.yrs j tcp.world.manager) ≡ 0)
          × (count_client client (get_presence X.yrs j ws.world.manager) ≡ 0)
  unfolding Tcp.handle_connection WebSocket.handle_ws_connection
  closed-absent now client s w es fs j written frames_written a b =
      let c = connect X Text now client s w in
      let d = connect X WebSocket.Message now client s w in
      let events = es ++ Tcp.disconnected ∷ [] in
      let frames = fs ++ WebSocket.disconnected ∷ [] in
      let tcp_ended =
        ended _ (tcp_disconnected es c)
          (tcp_run-unfailed X events c written (connect-unfailed X Text now client s w)) a in
      let ws_ended =
        ended _ (ws_disconnected fs d)
          (ws_run-unfailed X frames d frames_written
            (connect-unfailed X WebSocket.Message now client s w))
          b in
      (
        (tcp_run client events c (connect-IsOrderly Text now client s w)).absent tcp_ended j,
        (ws_run client frames d (connect-IsOrderly WebSocket.Message now client s w)).absent
            ws_ended j,
      )

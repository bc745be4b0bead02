-- ===== src/Transport/Connection.antt =====
-- What the connections of crates/ussl-transport/src/tcp.rs and websocket.rs have in common: how a
-- connection starts, writes the responses to what it received, delivers a delta, and ends. A message of
-- type `M` is what one write sends.
pub mod Orderly
pub mod Sent
use ussl.Prelude.{Bool, true, false, List, [], ◌∷◌, ◌++◌, Option, none, some, if◌then◌else◌}
use ussl.Text.{Text, codes, text_eq}
use ussl.Core.Manager.State as Manager
use ussl.Core.Manager.State.{Delta}
use ussl.Protocol.Response as Response
use ussl.Protocol.Response.{Response}
use ussl.Transport.RateLimit.{RateLimitConfig}
use ussl.Transport.Handler.{
  Externals, World, Clock, Handler, new_handler, with_auth, with_storage, with_rate_limit,
  matches_subscription, subscribe_updates, cleanup,
}
use ussl.Transport.Handler.Process.{Run, Ending, waiting, refused, hung, exhausted, process}

-- `TcpServer` and `WebSocketServer` as far as their connections see them
pub record Server : Type 0 where
  pub password : Option Text
  pub has_storage : Bool
  pub rate_limit : Option RateLimitConfig

-- `serving` is in the loop; `closed` has left it and cleaned up; `failed` has returned an error from
-- inside the loop; `stuck` waits for a command that does not return.
pub data Status : Type 0 where
  serving closed failed stuck : Status

-- How the writing of responses ends.
pub data Sending : Type 0 where
  all_sent write_failed said_goodbye : Sending

abbrev pub authenticating : Text → Option Text → Handler
authenticating client_id (some pwd) = with_auth client_id pwd
authenticating client_id none = new_handler client_id

abbrev pub storing : Bool → Handler → Handler
storing true h = with_storage h
storing false h = h

abbrev pub limiting : Clock → Option RateLimitConfig → Handler → Handler
limiting now (some config) h = with_rate_limit now config h
limiting now none h = h

-- the handler of a new connection
unfoldable pub handler_for : Clock → Text → Server → Handler
handler_for now client_id s =
    limiting now s.rate_limit (storing s.has_storage (authenticating client_id s.password))

-- Whether the next write succeeds, and what is known of those behind it; all others succeed.
abbrev pub next_write : List Bool → Bool × List Bool
next_write [] = (true, [])
next_write (b ∷ bs) = (b, bs)

module _ {F : Type 0} where
  -- `matches!(response, Response::Ok(Some(ref msg)) if msg == "Goodbye")`
  abbrev pub is_goodbye : Response F → Bool
  is_goodbye (Response.ok (some msg)) = text_eq msg (codes "Goodbye")
  is_goodbye _ = false

  -- The loop that writes the responses; `quits` says whether it looks for the answer to QUIT.
  unfoldable pub send_responses {ℓ} :
      {M : Type ℓ}
      → (Response F → M)
      → Bool
      → List (Response F)
      → List Bool
      → List M
      → Sending × List M
  send_responses message quits [] writes sent = (all_sent, sent)
  send_responses message quits (r ∷ rs) writes sent =
      let sent' = sent ++ message r ∷ [] in
      let (written, writes') = next_write writes in
      let rest = send_responses message quits rs writes' sent' in
      elim written [
        | false ↦ (write_failed, sent)
        | true ↦ (elim quits [
          | true ↦ if is_goodbye r then (said_goodbye, sent') else rest
          | false ↦ rest
        ])
      ]

module _ {F : Type 0} (X : Externals F) (M : Type 0) where
  pub record Connection : Type 0 where
    pub status : Status
    pub handler : Handler
    pub world : World X
    pub sent : List M

  -- a new connection, with its receiver of deltas
  unfoldable pub connect : Clock → Text → Server → World X → Connection
  connect now client_id s w = record {
    status = serving;
    handler = handler_for now client_id s;
    world = subscribe_updates X w;
    sent = [];
  }

  -- The function of the connection returns, and its receiver is dropped.
  unfoldable pub leave : Status → Connection → Connection
  leave status c = record c {
    status = status;
    world = record c.world { manager = Manager.drop_receiver X.yrs c.world.manager };
  }

  -- `handler.cleanup()` behind the loop
  unfoldable pub close : Connection → Connection
  close c = leave closed (record c { world = cleanup X c.handler c.world })

  abbrev pub after_sending : Sending × List M → Connection → Connection
  after_sending (all_sent, sent) c = record c { sent = sent }
  after_sending (write_failed, sent) c = leave failed (record c { sent = sent })
  after_sending (said_goodbye, sent) c = close (record c { sent = sent })

  abbrev pub answer :
      (Response F → M) → Bool → List Bool → Ending → List (Response F) → Connection → Connection
  answer message quits writes waiting rs c =
      after_sending (send_responses message quits rs writes c.sent) c
  answer message quits writes refused rs c =
      after_sending (send_responses message quits rs writes c.sent) c
  answer message quits writes hung rs c = record c { status = stuck }
  answer message quits writes exhausted rs c = record c { status = stuck }

  -- received bytes: `handler.process`, and a write for each response
  unfoldable pub receive :
      (Response F → M) → Bool → Clock → Text → List Bool → Connection → Connection
  receive message quits now bytes writes c =
      let run = process X now bytes c.handler c.world in
      answer message quits writes run.ending run.responses
        (record c { handler = run.handler; world = run.world })

  -- a delta of the receiver; where the write fails the loop ends
  unfoldable pub deliver : (Response F → M) → Delta → List Bool → Connection → Connection
  deliver message delta writes c =
      let data_sent = c.sent ++ message (Response.delta delta.version delta.payload) ∷ [] in
      if matches_subscription delta c.handler
      then (if (next_write writes).0 then record c { sent = data_sent } else close c)
      else c

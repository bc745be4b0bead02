-- ===== src/Transport/Connection/Orderly.antt =====
-- crates/ussl-transport/src/tcp.rs and websocket.rs: what holds when a connection has been closed, and
-- what it has sent.
use ussl.Prelude.{ap, ◌≡◌, refl, ◌≢◌, subst, ◌∙◌, sym, Bool, List, Bool-cases, inl, inr}
use ussl.Text.{Text}
use ussl.Core.Manager.State as Manager
use ussl.Core.Manager.State.{Delta, get_presence}
use ussl.Core.Manager.Presences.{count_client, get_presence-remove_presence}
use ussl.Protocol.Response.{Response}
use ussl.Transport.Handler.{Externals, World, Clock, Handler, matches_subscription, cleanup}
use ussl.Transport.Handler.Process.{Ending, waiting, refused, hung, exhausted, process}
use ussl.Transport.Handler.Gate.{Keeps, process-Keeps}
use ussl.Transport.Connection.{
  Status, serving, closed, failed, stuck, Sending, all_sent, write_failed, said_goodbye, next_write,
  Connection, close, leave, after_sending, answer, receive, deliver,
}

module _ {F : Type 0} (X : Externals F) (M : Type 0) where
  -- The client is present at no document.
  abbrev pub Absent : Text → World X → Type 0
  Absent client w = (j : Text) → count_client client (get_presence X.yrs j w.manager) ≡ 0

  -- The connection is that of the client, and once it is closed the client is present nowhere.
  pub record IsOrderly (client : Text) (c : Connection X M) : Type 0 where
    pub named : c.handler.client_id ≡ client
    pub absent : c.status ≡ closed → Absent client c.world

  cleanup-Absent : (h : Handler) (w : World X) → Absent h.client_id (cleanup X h w)
  unfolding cleanup
  cleanup-Absent h w j = (get_presence-remove_presence X.yrs h.client_id w.manager j).0

  get_presence-drop_receiver :
      (j : Text) (w : World X)
      → get_presence X.yrs j (Manager.drop_receiver X.yrs w.manager)
        ≡ get_presence X.yrs j w.manager
  unfolding get_presence Manager.drop_receiver
  get_presence-drop_receiver j w = refl

  pub close-IsOrderly :
      (client : Text) (c : Connection X M)
      → c.handler.client_id ≡ client
      → IsOrderly client (close X M c)
  unfolding close leave
  close-IsOrderly client c e = record {
    named = e;
    absent = λ s j.
        let gone =
          subst (λ n. Absent n (cleanup X c.handler c.world)) e
            (cleanup-Absent c.handler c.world) in
        ap (count_client client) (get_presence-drop_receiver j (cleanup X c.handler c.world))
        ∙ gone j;
  }

  pub not_closed-IsOrderly :
      (client : Text) (c : Connection X M) (s : Status)
      → s ≢ closed
      → c.status ≡ s
      → c.handler.client_id ≡ client
      → IsOrderly client c
  not_closed-IsOrderly client c s n e named = record {
    named = named;
    absent = λ k. absurd (n (sym e ∙ k));
  }

  after_sending-IsOrderly :
      (client : Text) (r : Sending × List M) (c : Connection X M)
      → c.status ≡ serving
      → c.handler.client_id ≡ client
      → IsOrderly client (after_sending X M r c)
  unfolding leave
  after_sending-IsOrderly client (all_sent, sent) c s e =
      not_closed-IsOrderly client _ serving (λ k. cc) s e
  after_sending-IsOrderly client (write_failed, sent) c s e =
      not_closed-IsOrderly client _ failed (λ k. cc) refl e
  after_sending-IsOrderly client (said_goodbye, sent) c s e = close-IsOrderly client _ e

  answer-IsOrderly :
      (client : Text) (message : Response F → M) (quits : Bool) (writes : List Bool)
      (ending : Ending) (rs : List (Response F)) (c : Connection X M)
      → c.status ≡ serving
      → c.handler.client_id ≡ client
      → IsOrderly client (answer X M message quits writes ending rs c)
  answer-IsOrderly client message quits writes waiting rs c s e =
      after_sending-IsOrderly client _ c s e
  answer-IsOrderly client message quits writes refused rs c s e =
      after_sending-IsOrderly client _ c s e
  answer-IsOrderly client message quits writes hung rs c s e =
      not_closed-IsOrderly client _ stuck (λ k. cc) refl e
  answer-IsOrderly client message quits writes exhausted rs c s e =
      not_closed-IsOrderly client _ stuck (λ k. cc) refl e

  pub receive-IsOrderly :
      (client : Text) (message : Response F → M) (quits : Bool) (now : Clock) (bytes : Text)
      (writes : List Bool) (c : Connection X M)
      → c.status ≡ serving
      → c.handler.client_id ≡ client
      → IsOrderly client (receive X M message quits now bytes writes c)
  unfolding receive
  receive-IsOrderly client message quits now bytes writes c s e =
      let run = process X now bytes c.handler c.world in
      answer-IsOrderly client message quits writes run.ending run.responses
        (record c { handler = run.handler; world = run.world }) s
        (Keeps.client_id (process-Keeps X now bytes c.handler c.world) ∙ e)

  pub deliver-IsOrderly :
      (client : Text) (message : Response F → M) (delta : Delta) (writes : List Bool)
      (c : Connection X M)
      → c.status ≡ serving
      → c.handler.client_id ≡ client
      → IsOrderly client (deliver X M message delta writes c)
  unfolding deliver
  deliver-IsOrderly client message delta writes c s e =
      elim (Bool-cases (matches_subscription delta c.handler)) [
        | inl m ↦ (elim (Bool-cases (next_write writes).0) [
          | inl b ↦ rw (m, b) (not_closed-IsOrderly client _ serving (λ k. cc) s e)
          | inr b ↦ rw (m, b) (close-IsOrderly client c e)
        ])
        | inr m ↦ rw m (not_closed-IsOrderly client c serving (λ k. cc) s e)
      ]

-- ===== src/Transport/Connection/Sent.antt =====
-- crates/ussl-transport/src/tcp.rs and websocket.rs: which responses are sent.
use ussl.Prelude.{
  ◌≡◌, refl, ◌∙◌, true, false, List, [], ◌∷◌, ◌++◌, map, any, append_assoc, append-nil, Bool-cases,
  inl, inr, if◌then◌else◌,
}
use ussl.Protocol.Response.{Response}
use ussl.Transport.Connection.{all_sent, said_goodbye, is_goodbye, send_responses}

module _ {F : Type 0} (M : Type 0) (message : Response F → M) where
  -- the responses up to the answer to QUIT, which is the last of them
  abbrev pub up_to_goodbye : List (Response F) → List (Response F)
  up_to_goodbye [] = []
  up_to_goodbye (r ∷ rs) = let rest = up_to_goodbye rs in if is_goodbye r then r ∷ [] else r ∷ rest

  -- Where every write succeeds, a connection that looks for the answer to QUIT sends the responses in
  -- their order up to this answer, and says goodbye if it is there; one that does not sends them all.
  send_responses-sent :
      (rs : List (Response F)) (sent : List M)
      → (send_responses message true rs [] sent ≡ (
        if any is_goodbye rs then said_goodbye else all_sent,
        sent ++ map message (up_to_goodbye rs),
      ))
        × (send_responses message false rs [] sent ≡ (all_sent, sent ++ map message rs))
  unfolding send_responses
  send_responses-sent [] sent = (rw (append-nil sent) refl, rw (append-nil sent) refl)
  send_responses-sent (r ∷ rs) sent =
      let (quits, goes_on) = send_responses-sent rs (sent ++ message r ∷ []) in
      (
        elim (Bool-cases (is_goodbye r)) [
          | inl e ↦ rw e refl
          | inr e ↦ rw e (
              quits ∙ rw (append_assoc sent (message r ∷ []) (map message (up_to_goodbye rs))) refl)
        ],
        goes_on ∙ rw (append_assoc sent (message r ∷ []) (map message rs)) refl,
      )

-- ===== src/Client/Sending.antt =====
-- crates/ussl-cli/src/main.rs with crates/ussl-protocol: what the client sends, as the parser of the server
-- reads it, and what it makes of the answer to AUTH.
use ussl.Prelude.{
  ◌≡◌, refl, ap, sym, ◌∙◌, Bool, true, false, ◌||◌, List, [], ◌∷◌, ◌++◌, Option, some, map, all,
  arith, append_assoc, append-nil, if◌then◌else◌,
}
use ussl.Text.{Text, codes, text_eq}
use ussl.Text.Space.{trim, is_empty}
use ussl.Text.Case.{to_uppercase}
use ussl.Core.Value.{Value}
use ussl.Protocol.Json.{SerdeJson}
use ussl.Protocol.Parser.{parse}
use ussl.Protocol.Parser.Framing.{in_line, line_outcome, parse-lines}
use ussl.Protocol.Response.{Response, encode}
use ussl.Client.{Shown, shown_as, green, yellow, Answer, execute_command}
use ussl.Client.Lines.{joined}
use ussl.Client.Trimmed.{all-trim, without_return-trim}
use ussl.Client.Answers.{displayed, IsOneLine, execute_command-encode}
use ussl.Client.Session.{
  typed, Reconnection, reconnected, unusable, refused, Exchange, Event, sends, shows, complains,
  banner, help, cleared, Session, sent_if, execute, or_reconnect, run_line, run_input, Args,
  Standing, authenticate, authenticated, after_answer, with_password,
}

-- The bytes that a client has sent.
abbrev pub sent_bytes : List Event → Text
sent_bytes [] = []
sent_bytes (sends t ∷ es) = t ++ sent_bytes es
sent_bytes (e ∷ es) = sent_bytes es

-- Whether a trimmed line is carried out by the client itself, QUIT included.
abbrev pub is_local : Text → Bool
is_local line =
    let word = to_uppercase line in
    is_empty line
    || (text_eq word (codes "QUIT") || text_eq word (codes "EXIT"))
    || text_eq word (codes "HELP")
    || text_eq word (codes "CLEAR")

sent_bytes-append : (es fs : List Event) → sent_bytes (es ++ fs) ≡ sent_bytes es ++ sent_bytes fs
sent_bytes-append [] fs = refl
sent_bytes-append (sends t ∷ es) fs =
    ap (λ s. t ++ s) (sent_bytes-append es fs)
    ∙ sym (append_assoc t (sent_bytes es) (sent_bytes fs))
sent_bytes-append (shows l ∷ es) fs = sent_bytes-append es fs
sent_bytes-append (complains ∷ es) fs = sent_bytes-append es fs
sent_bytes-append (banner ∷ es) fs = sent_bytes-append es fs
sent_bytes-append (help ∷ es) fs = sent_bytes-append es fs
sent_bytes-append (cleared ∷ es) fs = sent_bytes-append es fs

sent_bytes-shows : (ls : List Shown) → sent_bytes (map (λ l. shows l) ls) ≡ []
sent_bytes-shows [] = refl
sent_bytes-shows (l ∷ ls) = sent_bytes-shows ls

silent : (es fs : List Event) → sent_bytes fs ≡ [] → sent_bytes (es ++ fs) ≡ sent_bytes es
silent es fs h =
    sent_bytes-append es fs ∙ ap (λ t. sent_bytes es ++ t) h ∙ append-nil (sent_bytes es)

execute-sends :
    (cmd : Text) (x : Exchange) (s : Session)
    → x.written ≡ true
    → sent_bytes (execute cmd x s).1.trace ≡ sent_bytes s.trace ++ (cmd ++ 10 ∷ [])
unfolding execute
execute-sends cmd x s h =
    let shown = (execute_command x.written (s.unread ++ x.arrives) x.ending).shown in
    sent_bytes-append s.trace (sent_if x.written cmd ++ map (λ l. shows l) shown)
    ∙ ap (λ t. sent_bytes s.trace ++ t)
        (sent_bytes-append (sent_if x.written cmd) (map (λ l. shows l) shown)
          ∙ ap (λ t. sent_bytes (sent_if x.written cmd) ++ t) (sent_bytes-shows shown)
          ∙ append-nil (sent_bytes (sent_if x.written cmd))
          ∙ ap (λ w. sent_bytes (sent_if w cmd)) h
          ∙ append-nil (cmd ++ 10 ∷ []))

-- A new connection is sent nothing, no AUTH either.
or_reconnect-sends :
    (r : Reconnection) (o : Bool × Session)
    → sent_bytes (or_reconnect r o).1.trace ≡ sent_bytes o.1.trace
or_reconnect-sends r (true, s) = refl
or_reconnect-sends reconnected (false, s) =
    silent (s.trace ++ complains ∷ []) (shows (shown_as yellow (codes "Reconnected.")) ∷ []) refl
    ∙ silent s.trace (complains ∷ []) refl
or_reconnect-sends unusable (false, s) = silent s.trace (complains ∷ []) refl
or_reconnect-sends refused (false, s) =
    silent (s.trace ++ complains ∷ []) (complains ∷ []) refl ∙ silent s.trace (complains ∷ []) refl

run_line-remote :
    (line : Text) (x : Exchange) (s : Session)
    → is_local line ≡ false
    → run_line line x s ≡ or_reconnect x.reconnection (execute line x s)
unfolding run_line
run_line-remote line x s h = ground arith

module _ {F : Type 0} (S : SerdeJson F) where
  -- A line that is typed, has no line feed, and is no command of the client itself, sends bytes, if it
  -- can be sent, out of which the parser of the server reads the trimmed line, whatever comes behind;
  -- and these are all the bytes that it sends, also where the client connects again.
  pub run_input-parse :
      (line more : Text) (x : Exchange) (s : Session)
      → all in_line line ≡ true
      → is_local (trim line) ≡ false
      → x.written ≡ true
      → (b : Text) × (sent_bytes (run_input (typed line) x s).1.trace ≡ sent_bytes s.trace ++ b)
        × (parse S (record { buffer = b ++ more })
            ≡ (line_outcome S (trim line), record { buffer = more }))
  unfolding run_input
  run_input-parse line more x s h k w = (
    trim line ++ 10 ∷ [],
    ap (λ (o : Standing × Session). sent_bytes o.1.trace) (run_line-remote (trim line) x s k)
        ∙ or_reconnect-sends x.reconnection (execute (trim line) x s)
        ∙ execute-sends (trim line) x s w,
    ap (λ t. parse S (record { buffer = t })) (append_assoc (trim line) (10 ∷ []) more)
        ∙ (parse-lines S (trim line) more (all-trim in_line line h)).1
        ∙ ap (λ t. (line_outcome S t, record { buffer = more })) (without_return-trim line),
  )

after_auth :
    (quiet : Bool) (cmd : Text) (a : Answer) (d : Shown)
    → a.shown ≡ d ∷ []
    → a.succeeded ≡ true
    → let o = authenticated quiet (after_answer true cmd a (record { unread = []; trace = [] })) in
      (o.0 ≡ true)
      × (o.1.trace
          ≡ sends (cmd ++ 10 ∷ [])
            ∷ shows d
            ∷ (if quiet then [] else shows (shown_as green (codes "Authenticated.")) ∷ []))
after_auth true cmd a d h k = rw (k, h) (refl, refl)
after_auth false cmd a d h k = rw (k, h) (refl, refl)

module _ {F : Type 0} (to_json : Value F → Option Text) where
  -- Whatever response of one line AUTH is answered by, an error included, the client takes itself for
  -- authenticated: it prints the response, then `Authenticated.`, unless it is quiet, and goes on.
  pub authenticate-encode :
      (r : Response F) (password : Text) (args : Args) (x : Exchange) (later : Text)
      → args.password ≡ some password
      → x.written ≡ true
      → joined x.arrives ≡ encode to_json r ++ later
      → IsOneLine to_json r
      → let o = authenticate args x (record { unread = []; trace = [] }) in
        (o.0 ≡ true)
        × (o.1.trace
            ≡ sends (codes "AUTH " ++ password ++ 10 ∷ [])
              ∷ shows (displayed to_json r)
              ∷ (if args.quiet then [] else shows (shown_as green (codes "Authenticated.")) ∷ []))
  unfolding authenticate execute
  authenticate-encode r password args x later p w h n =
      let s : Session = record { unread = []; trace = [] } in
      let a = execute_command true x.arrives x.ending in
      let (shown, good, left) = execute_command-encode to_json r x.arrives x.ending later h n in
      let sent : execute (codes "AUTH " ++ password) x s
          ≡ after_answer true (codes "AUTH " ++ password) a s =
        ap
          (λ b. after_answer b (codes "AUTH " ++ password) (execute_command b x.arrives x.ending) s)
          w in
      let whole = ap (λ o. with_password o args.quiet x s) p ∙ ap (authenticated args.quiet) sent in
      rw whole
        (after_auth args.quiet (codes "AUTH " ++ password) a (displayed to_json r) shown good)

-- ===== src/Transport/Handler/Rounds.antt =====
-- crates/ussl-transport/src/handler.rs: the loop of `process` comes to its end, and what it does with
-- bytes that come in several parts.
use ussl.Prelude.{
  ℕ, zero, suc, ◌<◌, ◌≡◌, refl, ap, ◌∙◌, sym, Bool, true, false, [], Option, none, some, length,
  arith, Option-cases, Bool-cases, inl, inr,
}
use ussl.Text.{Text, text_eq}
use ussl.Protocol.Command as Kind
use ussl.Protocol.Command.{Parsed, ok, err, Command, CommandKind}
use ussl.Protocol.Json.{Json}
use ussl.Protocol.Parser.{Parser, split_line, without_return}
use ussl.Protocol.Parser.Framing.{parse_complete, parse_incomplete, split_line-length, line_outcome}
use ussl.Protocol.Response.{Response}
use ussl.Transport.Handler.{
  Externals, World, Clock, Handler, handle_subscribe, handle_unsubscribe, contains,
}
use ussl.Transport.Handler.Whole.{
  Handled, handle_command, handle_kind, handle_auth, handle_info, needs_auth, of_response,
  check_password,
}
use ussl.Transport.Handler.Process.{
  waiting, Run, run_end, respond, push_response, check_limit, served, serve, is_unlimited, round,
  process_loop,
}

abbrev pub put_parser : Parser → Handler → Handler
put_parser p h = record h { parser = p }

module _ {F : Type 0} (X : Externals F) where
  abbrev pub with_parser : Parser → Handled X → Handled X
  with_parser p r = record r { handler = put_parser p r.handler }

  check_password-parser :
      (p : Parser) (password : Text) (expected : Option Text) (h : Handler) (w : World X)
      → of_response X w (check_password X password expected (put_parser p h))
        ≡ with_parser p (of_response X w (check_password X password expected h))
  check_password-parser p password none h w = refl
  check_password-parser p password (some expected) h w =
      elim (Bool-cases (text_eq expected password)) [ inl e ↦ rw e refl | inr e ↦ rw e refl ]

  subscribe-parser :
      (p : Parser) (pattern : Text) (h : Handler) (w : World X)
      → of_response X w (handle_subscribe pattern (put_parser p h))
        ≡ with_parser p (of_response X w (handle_subscribe pattern h))
  unfolding handle_subscribe
  subscribe-parser p pattern h w = elim (Bool-cases (contains h.subscriptions pattern)) [
    | inl e ↦ rw e refl
    | inr e ↦ rw e refl
  ]

  -- The handlers neither read the parser nor change it.
  handle_kind-parser :
      (now : Clock) (kind : CommandKind F (Json X.serde.Number)) (id : Option Text) (p : Parser)
      (h : Handler) (w : World X)
      → handle_kind X now kind id (put_parser p h) w ≡ with_parser p (handle_kind X now kind id h w)
  unfolding handle_kind
  handle_kind-parser now (Kind.auth password) id p h w =
      unfold handle_auth in check_password-parser p password h.password h w
  handle_kind-parser now (Kind.subscribe pattern path) id p h w = subscribe-parser p pattern h w
  handle_kind-parser now (Kind.unsubscribe pattern) id p h w = unfold handle_unsubscribe in refl
  handle_kind-parser now (Kind.create strategy ttl) id p h w = refl
  handle_kind-parser now (Kind.get path) id p h w = refl
  handle_kind-parser now (Kind.set path value) id p h w = refl
  handle_kind-parser now (Kind.delete path) id p h w = refl
  handle_kind-parser now (Kind.push path value) id p h w = refl
  handle_kind-parser now (Kind.increment path delta) id p h w = refl
  handle_kind-parser now (Kind.presence payload) id p h w = refl
  handle_kind-parser now Kind.ping id p h w = refl
  handle_kind-parser now Kind.quit id p h w = refl
  handle_kind-parser now Kind.info id p h w = unfold handle_info in refl
  handle_kind-parser now (Kind.keys pattern) id p h w = refl
  handle_kind-parser now Kind.compact id p h w = refl
  handle_kind-parser now (Kind.expire ttl_ms) id p h w = refl
  handle_kind-parser now Kind.ttl id p h w = refl
  handle_kind-parser now Kind.backup id p h w = refl
  handle_kind-parser now (Kind.restore bytes) id p h w = refl

  handle_command-parser :
      (now : Clock) (cmd : Command F (Json X.serde.Number)) (p : Parser) (h : Handler) (w : World X)
      → handle_command X now cmd (put_parser p h) w ≡ with_parser p (handle_command X now cmd h w)
  unfolding handle_command
  handle_command-parser now cmd p h w = elim (Bool-cases (needs_auth X cmd.kind h)) [
    | inl e ↦ rw e refl
    | inr e ↦ rw e (handle_kind-parser now cmd.kind cmd.document_id p h w)
  ]

  check_limit-parser :
      (now : Clock) (kind : CommandKind F (Json X.serde.Number)) (p : Parser) (h : Handler)
      → check_limit X now kind (put_parser p h)
        ≡ ((check_limit X now kind h).0, put_parser p (check_limit X now kind h).1)
  unfolding check_limit
  check_limit-parser now kind p h = elim (Bool-cases (is_unlimited X kind)) [
    | inl e ↦ rw e refl
    | inr e ↦ rw e refl
  ]

  served-parser :
      (now : Clock) (cmd : Command F (Json X.serde.Number)) (p : Parser) (l : Bool × Handler)
      (w : World X)
      → served X now cmd (l.0, put_parser p l.1) w ≡ with_parser p (served X now cmd l w)
  served-parser now cmd p (true, h) w = handle_command-parser now cmd p h w
  served-parser now cmd p (false, h) w = refl

  pub serve-parser :
      (now : Clock) (cmd : Command F (Json X.serde.Number)) (p : Parser) (h : Handler) (w : World X)
      → serve X now cmd (put_parser p h) w ≡ with_parser p (serve X now cmd h w)
  unfolding serve
  serve-parser now cmd p h w =
      ap (λ l. served X now cmd l w) (check_limit-parser now cmd.kind p h)
      ∙ served-parser now cmd p (check_limit X now cmd.kind h) w

  pub serve-keeps_parser :
      (now : Clock) (cmd : Command F (Json X.serde.Number)) (h : Handler) (w : World X)
      → (serve X now cmd h w).handler.parser ≡ h.parser
  serve-keeps_parser now cmd h w =
      ap (λ (r : Handled X). r.handler.parser) (serve-parser now cmd h.parser h w)

  push_response-cong :
      (next other : Handler → World X → Run X) (o : Option (Response F)) (h : Handler) (w : World X)
      → next h w ≡ other h w
      → push_response X next o h w ≡ push_response X other o h w
  push_response-cong next other none h w e = refl
  push_response-cong next other (some r) h w e = ap (respond X r) e

  -- A round uses `next` at handlers with the parser that it was given.
  pub round-cong :
      (now : Clock) (next other : Handler → World X → Run X)
      (o : Parsed (Option (Command F (Json X.serde.Number)))) (h : Handler) (w : World X)
      → ((h' : Handler) (w' : World X) → h'.parser ≡ h.parser → next h' w' ≡ other h' w')
      → round X now next o h w ≡ round X now other o h w
  round-cong now next other (ok none) h w e = refl
  round-cong now next other (err x) h w e = refl
  round-cong now next other (ok (some cmd)) h w e =
      push_response-cong next other _ _ _ (e _ _ (serve-keeps_parser now cmd h w))

  pub process_loop_incomplete :
      (f : ℕ) (now : Clock) (h : Handler) (w : World X)
      → split_line h.parser.buffer ≡ none
      → process_loop X (suc f) now h w ≡ run_end X waiting [] h w
  unfolding process_loop
  process_loop_incomplete f now h w e = rw (parse_incomplete X.serde h.parser e) refl

  pub process_loop_complete :
      (f : ℕ) (now : Clock) (h : Handler) (w : World X) (line r : Text)
      → split_line h.parser.buffer ≡ some (line, r)
      → process_loop X (suc f) now h w
        ≡ round X now
            (λ h' w'. process_loop X f now h' w')
            (line_outcome X.serde (without_return line))
            (put_parser (record { buffer = r }) h)
            w
  unfolding process_loop
  process_loop_complete f now h w line r e = rw (parse_complete X.serde h.parser line r e) refl

  -- Any fuel past the length of the buffer gives the same run.
  pub process_loop-agree :
      (f g : ℕ) (now : Clock) (h : Handler) (w : World X)
      → length h.parser.buffer < f
      → length h.parser.buffer < g
      → process_loop X f now h w ≡ process_loop X g now h w
  process_loop-agree zero g now h w l k = absurd (omega arith)
  process_loop-agree (suc f) zero now h w l k = absurd (omega arith)
  process_loop-agree (suc f) (suc g) now h w l k =
      elim (Option-cases (split_line h.parser.buffer)) [
        | inl e ↦ process_loop_incomplete f now h w e ∙ sym (process_loop_incomplete g now h w e)
        | inr ((line, r), e) ↦
            let less = split_line-length h.parser.buffer line r e in
            process_loop_complete f now h w line r e
            ∙ round-cong now (λ h' w'. process_loop X f now h' w')
                (λ h' w'. process_loop X g now h' w') _ _ w
                (λ h' w' same.
                  let len = ap (λ p. length p.buffer) same in
                  process_loop-agree f g now h' w' (omega arith) (omega arith))
            ∙ sym (process_loop_complete g now h w line r e)
      ]

-- ===== src/Transport/Handler/Drain.antt =====
-- crates/ussl-transport/src/handler.rs: what holds of the loop of `process` because it holds of each
-- round, and that the loop ends.
use ussl.Prelude.{
  ℕ, zero, suc, ◌<◌, ◌≡◌, ◌≢◌, refl, ap, sym, subst, ◌∙◌, ◌⊎◌, [], ◌∷◌, ◌++◌, Option, none, some,
  length, arith, Option-cases, inl, inr,
}
use ussl.Text.{Text, codes}
use ussl.Text.Utf8.{from_utf8_lossy}
use ussl.Protocol.Command.{Parsed, ProtocolError, ok, err, Command, ◌>>=◌}
use ussl.Protocol.Json.{Json}
use ussl.Protocol.Messages.{protocol_text}
use ussl.Protocol.Response.{Response, error}
use ussl.Protocol.Parser.{split_line, without_return, feed, parse_line}
use ussl.Protocol.Parser.Framing.{split_line-length, line_outcome, feed-cases}
use ussl.Transport.Handler.{Externals, World, Clock, Handler}
use ussl.Transport.Handler.Process.{
  waiting, refused, hung, exhausted, Run, run_end, respond, push_response, serve, round,
  process_loop, process,
}
use ussl.Transport.Handler.Rounds.{
  put_parser, serve-keeps_parser, round-cong, process_loop_incomplete, process_loop_complete,
  process_loop-agree,
}

module _ {F : Type 0} (X : Externals F) where
  -- the loop of `process` with the fuel that `process` gives it
  abbrev pub drain : Clock → Handler → World X → Run X
  drain now h w = process_loop X (suc (length h.parser.buffer)) now h w

  pub drain_complete :
      (now : Clock) (h : Handler) (w : World X) (line r : Text)
      → split_line h.parser.buffer ≡ some (line, r)
      → drain now h w
        ≡ round X now
            (drain now)
            (line_outcome X.serde (without_return line))
            (put_parser (record { buffer = r }) h)
            w
  drain_complete now h w line r e =
      let less = split_line-length h.parser.buffer line r e in
      process_loop_complete X (length h.parser.buffer) now h w line r e
      ∙ round-cong X now _ (drain now) _ _ w (λ h' w' same.
        let len = ap (λ p. length p.buffer) same in
        process_loop-agree X (length h.parser.buffer) (suc (length h'.parser.buffer)) now h' w'
          (omega arith) (omega arith))

  abbrev pub parse_refused : ProtocolError → Response F
  parse_refused e = error (codes "PARSE_ERROR") (protocol_text e)

  -- A line is read as a command, or refused.
  pub line_outcome-cases :
      (line : Text)
      → ((e : ProtocolError) × (line_outcome X.serde line ≡ err e))
        ⊎ ((cmd : Command F (Json X.serde.Number)) × (line_outcome X.serde line ≡ ok (some cmd)))
  line_outcome-cases line = by_result (parse_line X.serde (from_utf8_lossy line))
    where
      by_result :
          (o : Parsed (Command F (Json X.serde.Number)))
          → ((e : ProtocolError) × (◌≡◌ {A = Parsed (Option (Command F (Json X.serde.Number)))}
                (o >>= λ cmd. ok (some cmd))
                (err e)))
            ⊎ ((cmd : Command F (Json X.serde.Number)) × (◌≡◌
                  {A = Parsed (Option (Command F (Json X.serde.Number)))}
                  (o >>= λ cmd. ok (some cmd))
                  (ok (some cmd))))
      by_result (ok cmd) = inr (cmd, refl)
      by_result (err e) = inl (e, refl)

  module _ (now : Clock) (P : Handler → World X → Run X → Type 0)
      (at_end : (h : Handler) (w : World X)
        → split_line h.parser.buffer ≡ none
        → P h w (run_end X waiting [] h w))
      (at_error : (h : Handler) (w : World X) (line r : Text) (e : ProtocolError)
        → split_line h.parser.buffer ≡ some (line, r)
        → P h w (run_end X refused (parse_refused e ∷ []) (put_parser (record { buffer = r }) h) w))
      (at_hang : (h : Handler) (w : World X) (line r : Text) (cmd : Command F (Json X.serde.Number))
        → split_line h.parser.buffer ≡ some (line, r)
        → let s = serve X now cmd (put_parser (record { buffer = r }) h) w in
          P h w (run_end X hung [] s.handler s.world))
      (at_response : (h : Handler) (w : World X) (line r : Text)
          (cmd : Command F (Json X.serde.Number)) (a : Response F) (run : Run X)
        → split_line h.parser.buffer ≡ some (line, r)
        → line_outcome X.serde (without_return line) ≡ ok (some cmd)
        → let s = serve X now cmd (put_parser (record { buffer = r }) h) w in
          s.response ≡ some a → P s.handler s.world run → P h w (respond X a run)) where
    push_response-holds :
        (h : Handler) (w : World X) (line r : Text) (cmd : Command F (Json X.serde.Number))
        → split_line h.parser.buffer ≡ some (line, r)
        → line_outcome X.serde (without_return line) ≡ ok (some cmd)
        → let s = serve X now cmd (put_parser (record { buffer = r }) h) w in
          P s.handler s.world (drain now s.handler s.world)
          → P h w (push_response X (drain now) s.response s.handler s.world)
    push_response-holds h w line r cmd e o more =
        let s = serve X now cmd (put_parser (record { buffer = r }) h) w in
        elim (Option-cases s.response) [
          | inl n ↦ rw n (at_hang h w line r cmd e)
          | inr (a, n) ↦ rw n (at_response h w line r cmd a _ e o n more)
        ]

    drain-holds_below :
        (n : ℕ) (h : Handler) (w : World X) → length h.parser.buffer < n → P h w (drain now h w)
    drain-holds_below zero h w l = absurd (omega arith)
    drain-holds_below (suc n) h w l = elim (Option-cases (split_line h.parser.buffer)) [
      | inl e ↦
          subst (P h w) (sym (process_loop_incomplete X (length h.parser.buffer) now h w e))
            (at_end h w e)
      | inr ((line, r), e) ↦
          subst (P h w) (sym (drain_complete now h w line r e))
            (elim (line_outcome-cases (without_return line)) [
              | inl (x, o) ↦ rw o (at_error h w line r x e)
              | inr (cmd, o) ↦
                  let s = serve X now cmd (put_parser (record { buffer = r }) h) w in
                  let same =
                    ap (λ p. length p.buffer)
                      (serve-keeps_parser X now cmd (put_parser (record { buffer = r }) h) w) in
                  let less = split_line-length h.parser.buffer line r e in
                  rw o (
                    push_response-holds h w line r cmd e o
                      (drain-holds_below n s.handler s.world (omega arith)))
            ])
    ]

    -- What holds of the ends of the loop, and of a round if it holds of what follows, holds of the loop.
    pub drain-holds : (h : Handler) (w : World X) → P h w (drain now h w)
    drain-holds h w = drain-holds_below (suc (length h.parser.buffer)) h w (omega arith)

  -- What holds of the loop, and where the bytes are refused, holds of a call of `process`.
  pub process-holds :
      (now : Clock) (bytes : Text) (h : Handler) (w : World X) (P : Run X → Type 0)
      → (feed bytes h.parser ≡ (ok tt, record { buffer = h.parser.buffer ++ bytes })
          → P (drain now (put_parser (record { buffer = h.parser.buffer ++ bytes }) h) w))
      → ((e : ProtocolError) → P (run_end X refused (parse_refused e ∷ []) h w))
      → P (process X now bytes h w)
  unfolding process
  process-holds now bytes h w P taken not_taken = elim (feed-cases h.parser bytes) [
    | inl e ↦ rw (e, process) (taken e)
    | inr (x, e) ↦ rw (e, process) (not_taken x)
  ]

  drain-ends : (now : Clock) (h : Handler) (w : World X) → (drain now h w).ending ≢ exhausted
  drain-ends now h w =
      drain-holds now (λ h' w' run. run.ending ≢ exhausted) (λ h' w' e x. cc)
        (λ h' w' line r x e y. cc) (λ h' w' line r cmd e x. cc)
        (λ h' w' line r cmd a run e o s more. more) h w

  -- A call of `process` comes to its end within the fuel, whatever the connection and the data are:
  -- it returns, unless a command does not return.
  pub process-ends :
      (now : Clock) (bytes : Text) (h : Handler) (w : World X)
      → (process X now bytes h w).ending ≢ exhausted
  process-ends now bytes h w =
      process-holds now bytes h w (λ run. run.ending ≢ exhausted) (λ e. drain-ends now _ w)
        (λ x e. cc)

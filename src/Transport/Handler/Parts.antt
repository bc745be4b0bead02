-- ===== src/Transport/Handler/Parts.antt =====
-- crates/ussl-transport/src/handler.rs: `process` on bytes that come in two parts.
use ussl.Prelude.{
  ◌+◌, ◌≤◌, ◌≡◌, refl, ap, sym, subst, ◌∙◌, List, ◌++◌, some, length, arith, length-append,
  append_assoc,
}
use ussl.Text.{Text}
use ussl.Protocol.Command.{ok, Command}
use ussl.Protocol.Json.{Json}
use ussl.Protocol.Response.{Response}
use ussl.Protocol.Parser.{max_message_size, split_line, without_return}
use ussl.Protocol.Parser.Framing.{split_line-length, split_line_more, line_outcome, feed_fits}
use ussl.Transport.Handler.{Externals, World, Clock, Handler}
use ussl.Transport.Handler.Whole.{Handled}
use ussl.Transport.Handler.Process.{waiting, Run, respond, push_response, serve, round, process}
use ussl.Transport.Handler.Rounds.{put_parser, serve-parser, serve-keeps_parser}
use ussl.Transport.Handler.Drain.{drain, drain_complete, drain-holds}

module _ {F : Type 0} (X : Externals F) where
  -- More bytes behind what a handler has received.
  abbrev pub more : Text → Handler → Handler
  more b h = put_parser (record { buffer = h.parser.buffer ++ b }) h

  abbrev pub prepend : List (Response F) → Run X → Run X
  prepend rs run = record run { responses = rs ++ run.responses }

  -- Where a run waits for more bytes, the run on all bytes goes on as the run on the further ones.
  abbrev GoesOn : Clock → Handler → World X → Run X → Type 0
  GoesOn now h w run =
      run.ending ≡ waiting
      → (length run.handler.parser.buffer ≤ length h.parser.buffer)
        × ((b : Text)
            → drain X now (more b h) w
              ≡ prepend run.responses (drain X now (more b run.handler) run.world))

  response-GoesOn :
      (now : Clock) (h : Handler) (w : World X) (line r : Text)
      (cmd : Command F (Json X.serde.Number)) (a : Response F) (run : Run X)
      → split_line h.parser.buffer ≡ some (line, r)
      → line_outcome X.serde (without_return line) ≡ ok (some cmd)
      → let s = serve X now cmd (put_parser (record { buffer = r }) h) w in
        s.response ≡ some a → GoesOn now s.handler s.world run → GoesOn now h w (respond X a run)
  response-GoesOn now h w line r cmd a run e o answer rest wait =
      let h0 = put_parser (record { buffer = r }) h in
      let s = serve X now cmd h0 w in
      let (short, goes_on) = rest wait in
      let less = split_line-length h.parser.buffer line r e in
      let same = serve-keeps_parser X now cmd h0 w in
      let len = ap (λ p. length p.buffer) same in
      (
        omega arith,
        λ b.
            drain_complete X now (more b h) w line (r ++ b)
              (split_line_more h.parser.buffer b line r e)
            ∙ ap (λ x. round X now (drain X now) x (put_parser (record { buffer = r ++ b }) h) w) o
            ∙ ap (λ (t : Handled X). push_response X (drain X now) t.response t.handler t.world)
                (serve-parser X now cmd (record { buffer = r ++ b }) h0 w)
            ∙ ap
                (λ x.
                  push_response X (drain X now) x
                    (put_parser (record { buffer = r ++ b }) s.handler) s.world)
                answer
            ∙ ap
                (λ p.
                  respond X a (
                    drain X now (put_parser (record { buffer = p.buffer ++ b }) s.handler) s.world))
                (sym same)
            ∙ ap (respond X a) (goes_on b),
      )

  drain-GoesOn : (now : Clock) (h : Handler) (w : World X) → GoesOn now h w (drain X now h w)
  drain-GoesOn now h w =
      drain-holds X now (GoesOn now) (λ h' w' e wait. (omega arith, λ b. refl))
        (λ h' w' line r x e wait. cc) (λ h' w' line r cmd e wait. cc) (response-GoesOn now) h w

  process_fits :
      (now : Clock) (bytes : Text) (h : Handler) (w : World X)
      → length h.parser.buffer + length bytes ≤ max_message_size
      → process X now bytes h w ≡ drain X now (more bytes h) w
  unfolding process
  process_fits now bytes h w fits = rw (feed_fits h.parser bytes fits, process) refl

  drain-append :
      (now : Clock) (a b : Text) (h : Handler) (w : World X) (run : Run X)
      → length h.parser.buffer + length (a ++ b) ≤ max_message_size
      → drain X now (more a h) w ≡ run
      → run.ending ≡ waiting
      → process X now (a ++ b) h w ≡ prepend run.responses (process X now b run.handler run.world)
  drain-append now a b h w run fits e wait =
      let first : GoesOn now (more a h) w run =
        subst (GoesOn now (more a h) w) e (drain-GoesOn now (more a h) w) in
      let (short, goes_on) = first wait in
      let l = length-append a b in
      let k = length-append h.parser.buffer a in
      process_fits now (a ++ b) h w fits
      ∙ ap (λ s. drain X now (put_parser (record { buffer = s }) h) w)
          (sym (append_assoc h.parser.buffer a b))
      ∙ goes_on b
      ∙ ap (prepend run.responses) (sym (process_fits now b run.handler run.world (omega arith)))

  -- Where the first part of some bytes is taken and leaves a run that waits for more, and all of them
  -- fit into the buffer, the run on all of them is the run on the second part after that on the first:
  -- the responses follow one another, and the connection and what it shares with others end the same.
  pub process-append :
      (now : Clock) (a b : Text) (h : Handler) (w : World X)
      → length h.parser.buffer + length (a ++ b) ≤ max_message_size
      → (process X now a h w).ending ≡ waiting
      → let first = process X now a h w in
        process X now (a ++ b) h w
        ≡ prepend first.responses (process X now b first.handler first.world)
  process-append now a b h w fits wait =
      let l = length-append a b in
      let one = process_fits now a h w (omega arith) in
      drain-append now a b h w (process X now a h w) fits (sym one) wait

-- ===== src/Transport/Handler/Process.antt =====
-- crates/ussl-transport/src/handler.rs: `process`. It takes what a connection received, and handles
-- the commands that are complete.
use ussl.Prelude.{
  ℕ, zero, suc, Bool, true, false, List, [], ◌∷◌, Option, none, some, length, if◌then◌else◌,
}
use ussl.Text.{Text, codes}
use ussl.Protocol.Command as Kind
use ussl.Protocol.Command.{Parsed, ok, err, Command, CommandKind}
use ussl.Protocol.Json.{Json}
use ussl.Protocol.Messages.{protocol_text}
use ussl.Protocol.Parser.{parse, feed}
use ussl.Protocol.Response.{Response, error}
use ussl.Transport.RateLimit.{RateLimiter, try_acquire}
use ussl.Transport.Handler.{Externals, World, Clock, Handler}
use ussl.Transport.Handler.Whole.{Handled, handle_command}

-- How a call of `process` ends: no complete line is left, the input is refused, a command does not
-- return, or the fuel is used up. After the first two the call returns.
pub data Ending : Type 0 where
  waiting refused hung exhausted : Ending

module _ {F : Type 0} (X : Externals F) where
  pub record Run : Type 0 where
    pub ending : Ending
    pub responses : List (Response F)
    pub handler : Handler
    pub world : World X

  abbrev pub run_end : Ending → List (Response F) → Handler → World X → Run
  run_end e rs h w = record { ending = e; responses = rs; handler = h; world = w }

  abbrev pub respond : Response F → Run → Run
  respond r run = record run { responses = r ∷ run.responses }

  -- `matches!(cmd.kind, CommandKind::Ping | CommandKind::Quit)`
  abbrev pub is_unlimited : CommandKind F (Json X.serde.Number) → Bool
  is_unlimited Kind.ping = true
  is_unlimited Kind.quit = true
  is_unlimited kind = false

  abbrev pub acquire : Clock → Option RateLimiter → Bool × Option RateLimiter
  acquire now none = (true, none)
  acquire now (some limiter) =
      let (allowed, limiter') = try_acquire now.ns limiter in (allowed, some limiter')

  -- whether the rate limit lets a command through
  unfoldable pub check_limit :
      Clock → CommandKind F (Json X.serde.Number) → Handler → Bool × Handler
  check_limit now kind h =
      let (allowed, limiter') = acquire now h.rate_limiter in
      if is_unlimited kind then (true, h) else (allowed, record h { rate_limiter = limiter' })

  abbrev pub rate_limited : Response F
  rate_limited = error (codes "RATE_LIMITED") (codes "Too many requests. Please slow down.")

  -- a response is pushed, and the loop goes on with `next`
  abbrev pub push_response :
      (Handler → World X → Run) → Option (Response F) → Handler → World X → Run
  push_response next (some r) h w = respond r (next h w)
  push_response next none h w = run_end hung [] h w

  abbrev pub served : Clock → Command F (Json X.serde.Number) → Bool × Handler → World X → Handled X
  served now cmd (true, h) w = handle_command X now cmd h w
  served now cmd (false, h) w = record { response = some rate_limited; handler = h; world = w }

  -- the response to a command, with the rate limit in front
  unfoldable pub serve : Clock → Command F (Json X.serde.Number) → Handler → World X → Handled X
  serve now cmd h w = served now cmd (check_limit now cmd.kind h) w

  -- one round of the loop, on what `parse` returned
  abbrev pub round :
      Clock
      → (Handler → World X → Run)
      → Parsed (Option (Command F (Json X.serde.Number)))
      → Handler
      → World X
      → Run
  round now next (ok none) h w = run_end waiting [] h w
  round now next (ok (some cmd)) h w =
      let s = serve now cmd h w in push_response next s.response s.handler s.world
  round now next (err e) h w =
      run_end refused (error (codes "PARSE_ERROR") (protocol_text e) ∷ []) h w

  unfoldable pub process_loop : ℕ → Clock → Handler → World X → Run
  process_loop zero now h w = run_end exhausted [] h w
  process_loop (suc fuel) now h w =
      let (parsed, p) = parse X.serde h.parser in
      round now (λ h' w'. process_loop fuel now h' w') parsed (record h { parser = p }) w

  abbrev pub fed : Clock → Parsed (Unit {0}) → Handler → World X → Run
  fed now (ok u) h w = process_loop (suc (length h.parser.buffer)) now h w
  fed now (err e) h w = run_end refused (error (codes "PARSE_ERROR") (protocol_text e) ∷ []) h w

  -- `ConnectionHandler::process`; each round takes a byte of the buffer at least.
  unfoldable pub process : Clock → Text → Handler → World X → Run
  process now bytes h w = let (r, p) = feed bytes h.parser in fed now r (record h { parser = p }) w

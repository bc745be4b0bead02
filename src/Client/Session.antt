-- ===== src/Client/Session.antt =====
-- crates/ussl-cli/src/main.rs: `main`, which authenticates, and runs one command or a loop over what is
-- typed. What is typed and what the network does is given from outside.
use ussl.Prelude.{
  Bool, true, false, ◌||◌, List, [], ◌∷◌, ◌++◌, Option, none, some, map, if◌then◌else◌,
}
use ussl.Text.{Text, codes, text_eq}
use ussl.Text.Space.{trim, is_empty}
use ussl.Text.Case.{to_uppercase}
use ussl.Client.{Ending, Shown, shown_as, plain, green, yellow, Answer, execute_command}

-- What `readline` returns.
pub data Input : Type 0 where
  typed : Text → Input
  interrupted end_of_input broken : Input

-- What comes of a new connection: it is used, it takes no time limit, or it is refused.
pub data Reconnection : Type 0 where
  reconnected unusable refused : Reconnection

-- What the network does for one command: whether it can be sent, the reads that come in, how they end,
-- and what a new connection comes to where one is tried.
pub record Exchange : Type 0 where
  pub written : Bool
  pub arrives : List Text
  pub ending : Ending
  pub reconnection : Reconnection

-- What the client does, in order: it sends a line, prints one, prints an error, prints a fixed text.
pub data Event : Type 0 where
  sends : Text → Event
  shows : Shown → Event
  complains : Event
  banner help cleared : Event

-- The reads of the stream that have not been made, and what has been done.
pub record Session : Type 0 where
  pub unread : List Text
  pub trace : List Event

abbrev pub log : List Event → Session → Session
log es s = record s { trace = s.trace ++ es }

abbrev pub sent_if : Bool → Text → List Event
sent_if true cmd = sends (cmd ++ 10 ∷ []) ∷ []
sent_if false cmd = []

-- What its reader has buffered is lost.
abbrev pub after_answer : Bool → Text → Answer → Session → Bool × Session
after_answer written cmd a s = (
  a.succeeded,
  record {
    unread = a.reader.reads;
    trace = s.trace ++ (sent_if written cmd ++ map (λ l. shows l) a.shown);
  },
)

-- `execute_command` on the stream
unfoldable pub execute : Text → Exchange → Session → Bool × Session
execute cmd x s =
    after_answer x.written cmd (execute_command x.written (s.unread ++ x.arrives) x.ending) s

-- How the program stands: in the loop, at its end, or at an error that `main` returns.
pub data Standing : Type 0 where
  running finished errored : Standing

abbrev pub reconnect : Reconnection → Session → Standing × Session
reconnect reconnected s = (
  running,
  record { unread = []; trace = s.trace ++ (shows (shown_as yellow (codes "Reconnected.")) ∷ []) },
)
reconnect unusable s = (errored, s)
reconnect refused s = (finished, log (complains ∷ []) s)

abbrev pub or_reconnect : Reconnection → Bool × Session → Standing × Session
or_reconnect x (true, s) = (running, s)
or_reconnect x (false, s) = reconnect x (log (complains ∷ []) s)

-- a command of the loop, already trimmed
unfoldable pub run_line : Text → Exchange → Session → Standing × Session
run_line line x s =
    let word = to_uppercase line in
    if is_empty line
    then (running, s)
    else if text_eq word (codes "QUIT") || text_eq word (codes "EXIT")
    then (finished, (execute (codes "QUIT") x s).1)
    else if text_eq word (codes "HELP")
    then (running, log (help ∷ []) s)
    else if text_eq word (codes "CLEAR")
    then (running, log (cleared ∷ []) s)
    else or_reconnect x.reconnection (execute line x s)

unfoldable pub run_input : Input → Exchange → Session → Standing × Session
run_input (typed line) x s = run_line (trim line) x s
run_input interrupted x s = (running, log (shows (shown_as plain (codes "^C")) ∷ []) s)
run_input end_of_input x s = (finished, log (shows (shown_as plain (codes "^D")) ∷ []) s)
run_input broken x s = (finished, log (complains ∷ []) s)

-- The loop, until it ends or nothing more is typed.
unfoldable pub interact : List (Input × Exchange) → Session → Standing × Session
interact [] s = (running, s)
interact ((i, x) ∷ rest) s =
    let (standing, s') = run_input i x s in
    let later = interact rest s' in
    elim standing [ running ↦ later | finished ↦ (finished, s') | errored ↦ (errored, s') ]

-- `Args` without the address
pub record Args : Type 0 where
  pub password : Option Text
  pub command : Option Text
  pub quiet : Bool

abbrev pub unless_quiet : Bool → Event → Session → Session
unless_quiet true e s = s
unless_quiet false e s = log (e ∷ []) s

abbrev pub authenticated : Bool → Bool × Session → Bool × Session
authenticated quiet (true, s) =
    (true, unless_quiet quiet (shows (shown_as green (codes "Authenticated."))) s)
authenticated quiet (false, s) = (false, s)

abbrev pub with_password : Option Text → Bool → Exchange → Session → Bool × Session
with_password none quiet x s = (true, s)
with_password (some password) quiet x s =
    authenticated quiet (execute (codes "AUTH " ++ password) x s)

unfoldable pub authenticate : Args → Exchange → Session → Bool × Session
authenticate args x s = with_password args.password args.quiet x s

abbrev pub of_command : Bool × Session → Standing × Session
of_command (true, s) = (finished, s)
of_command (false, s) = (errored, s)

abbrev pub single_or_loop :
    Option Text → Exchange → List (Input × Exchange) → Session → Standing × Session
single_or_loop (some cmd) x inputs s = of_command (execute cmd x s)
single_or_loop none x inputs s = interact inputs s

-- `main` behind the connection: the exchange for AUTH, the one for a single command, and what is typed.
unfoldable pub run_client :
    Args → Exchange → Exchange → List (Input × Exchange) → Standing × Session
run_client args auth single inputs =
    let (good, s) = authenticate args auth (record { unread = []; trace = [] }) in
    elim good [
      | false ↦ (errored, s)
      | true ↦ single_or_loop args.command single inputs (unless_quiet args.quiet banner s)
    ]

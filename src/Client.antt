-- ===== src/Client.antt =====
-- crates/ussl-cli/src/main.rs: the command line client. `execute_command` sends a command and shows the
-- answer; Client/Session is the rest of `main`. A connection gives the bytes of one `read` after the
-- other, then it is closed or a read fails.
pub mod Lines
pub mod Shows
pub mod Answers
pub mod Counts
pub mod Arrays
pub mod Session
pub mod Trimmed
pub mod Sending
use ussl.Prelude.{
  ℕ, zero, suc, ◌+◌, Bool, true, false, List, [], ◌∷◌, ◌++◌, Option, none, some, drop,
  if◌then◌else◌,
}
use ussl.Text.{Text, codes, text_eq, starts_with}
use ussl.Text.Space.{trim}
use ussl.Text.Utf8.{from_utf8_lossy}
use ussl.Core.Path.{parse_usize}
use ussl.Protocol.Parser.{split_line}
use ussl.Protocol.Response.Decimal.{show}

-- How a connection ends: a read gives no bytes, or it fails, as it does after five seconds.
pub data Ending : Type 0 where
  closed failing : Ending

-- A `BufReader`: the bytes it has read and not given out, and the reads that are still to come.
pub record Reader : Type 0 where
  pub buffer : Text
  pub reads : List Text
  pub ending : Ending

-- What `read_until(b'\n')` comes to: a line, with the bytes and reads behind it, or the end.
pub data Until : Type 0 where
  line : Text → Text → List Text → Until
  ended : Text → Until

abbrev pub behind : Text → Until → Until
behind s (line t rest reads) = line (s ++ t) rest reads
behind s (ended t) = ended (s ++ t)

-- the line in the buffer, or what another read makes of it
abbrev pub look : Option (Text × Text) → List Text → Until → Until
look none reads later = later
look (some (l, rest)) reads later = line (l ++ 10 ∷ []) rest reads

unfoldable pub read_until : Text → List Text → Until
read_until buffer [] = look (split_line buffer) [] (ended buffer)
read_until buffer (s ∷ reads) =
    let later = read_until s reads in look (split_line buffer) (s ∷ reads) (behind buffer later)

-- A line has to be UTF-8.
abbrev pub checked : Text → Option Text
checked s = if text_eq (from_utf8_lossy s) s then some s else none

abbrev pub at_end : Ending → Text → Option Text
at_end closed s = checked s
at_end failing s = none

abbrev pub from_until : Ending → Until → Option Text × Reader
from_until e (line s rest reads) = (checked s, record { buffer = rest; reads = reads; ending = e })
from_until e (ended s) = (at_end e s, record { buffer = []; reads = []; ending = e })

-- `read_line`: the line with its line feed, or an error
unfoldable pub read_line : Reader → Option Text × Reader
read_line r = from_until r.ending (read_until r.buffer r.reads)

pub data Style : Type 0 where
  plain green red yellow blue cyan dimmed : Style

-- A line that is printed, in its colour.
pub record Shown : Type 0 where
  pub style : Style
  pub text : Text

abbrev pub shown_as : Style → Text → Shown
shown_as style text = record { style = style; text = text }

-- What has been printed, whether there was no error, and the reader.
pub record Answer : Type 0 where
  pub shown : List Shown
  pub succeeded : Bool
  pub reader : Reader

abbrev pub printed : Shown → Reader → Answer
printed s r = record { shown = s ∷ []; succeeded = true; reader = r }

abbrev pub failed : Reader → Answer
failed r = record { shown = []; succeeded = false; reader = r }

-- a line, or `?` on the error
abbrev pub or_failed : (Text → Reader → Answer) → Option Text × Reader → Answer
or_failed f (none, r) = failed r
or_failed f (some s, r) = f s r

abbrev pub also : Shown → Answer → Answer
also s a = record a { shown = s ∷ a.shown }

-- The loop over `i in 0..count`, from `i` on.
unfoldable pub show_items : ℕ → ℕ → Reader → Answer
show_items zero i r = record { shown = []; succeeded = true; reader = r }
show_items (suc n) i r =
    or_failed
      (λ s r'.
        also (shown_as plain (show (i + 1) ++ codes ") " ++ trim s)) (show_items n (i + 1) r'))
      (read_line r)

-- `response[1..].parse().unwrap_or(0)`
abbrev pub or_zero : Option ℕ → ℕ
or_zero none = 0
or_zero (some n) = n

-- the data of a bulk string
unfoldable pub show_data : Reader → Answer
show_data r = or_failed (λ s r'. printed (shown_as plain (trim s)) r') (read_line r)

-- the display of a first line, already trimmed
unfoldable pub display : Text → Reader → Answer
display response r =
    if starts_with (codes "+OK") response
    then printed (shown_as green response) r
    else if starts_with (codes "+PONG") response
    then printed (shown_as green (codes "PONG")) r
    else if starts_with (codes "-ERR") response
    then printed (shown_as red response) r
    else if starts_with (codes ":") response
    then printed (shown_as yellow (drop 1 response)) r
    else if starts_with (codes "$") response
    then if text_eq response (codes "$-1")
      then printed (shown_as dimmed (codes "(nil)")) r
      else show_data r
    else if starts_with (codes "*") response
    then show_items (or_zero (parse_usize (drop 1 response))) 0 r
    else if starts_with (codes "#") response
    then printed (shown_as blue (codes "Delta: " ++ response)) r
    else printed (shown_as plain response) r

unfoldable pub read_answer : Reader → Answer
read_answer r = or_failed (λ s r'. display (trim s) r') (read_line r)

-- `execute_command`: what is read goes through a reader of its own. `written` says whether the command
-- could be sent.
unfoldable pub execute_command : Bool → List Text → Ending → Answer
execute_command written reads ending =
    let r : Reader = record { buffer = []; reads = reads; ending = ending } in
    if written then read_answer r else failed r

-- ===== src/Samples/Clients.antt =====
-- The command line client, with the answers of a server.
use ussl.Prelude.{
  ℕ, ◌≡◌, refl, true, false, List, [], ◌∷◌, ◌++◌, Option, none, some, drop, take, arith,
}
use ussl.Text.{Text, codes, text_eq, starts_with}
use ussl.Text.Space.{trim, trim_end, skip_space, space_length}
use ussl.Text.Case.{to_uppercase, upper_from}
use ussl.Text.Utf8.{from_utf8_lossy, lossy_from}
use ussl.Core.Path.{parse_usize, parse_digits}
use ussl.Core.Value.{Value}
use ussl.Core.Manager.State as Manager
use ussl.Protocol.Parser.{parse, split_line}
use ussl.Protocol.Parser.Framing.{line_outcome}
use ussl.Protocol.Response.{Response, encode, encode_into, put, put_items, put_bulk}
use ussl.Protocol.Response.Decimal.{show, show_from}
use ussl.Transport.Handler.{World}
use ussl.Transport.Handler.Whole.{handle_keys}
use ussl.Client.{
  closed, failing, shown_as, plain, green, execute_command, read_answer, read_line, read_until,
  display, show_items,
}
use ussl.Client.Answers.{displayed, execute_command-encode}
use ussl.Client.Arrays.{bulk_lines, with_ends, numbered, Lists, keys, execute_command-handle_keys}
use ussl.Client.Shows.{Prints}
use ussl.Client.Session.{
  typed, reconnected, Exchange, sends, shows, Session, run_input, Args, authenticate,
}
use ussl.Client.Sending.{sent_bytes, run_input-parse, authenticate-encode}
use ussl.Samples.Connections.{numbers, externals, fresh}
use ussl.Samples.Documents.{user, profile}

abbrev no_json : Value ℕ → Option Text
no_json v = none

abbrev answer : Response ℕ
answer = Response.bulk (codes "abc")

abbrev in_parts : List Text
in_parts = (codes "$3" ++ 13 ∷ []) ∷ (10 ∷ codes "ab") ∷ (codes "c" ++ 13 ∷ 10 ∷ codes "+PO") ∷ []

-- The end of the line comes in two reads, and another answer is there already.
execute_command-encode_example :
    Prints (execute_command true in_parts failing) (displayed no_json answer) (codes "+PO")
execute_command-encode_example =
    execute_command-encode no_json answer in_parts failing (codes "+PO")
      (unfold encode encode_into put put_bulk show show_from in refl)
      (refl, unfold from_utf8_lossy lossy_from in refl)

abbrev holding : World externals
holding = record fresh { manager = record fresh.manager { documents = (user, profile) ∷ [] } }

abbrev keys_answer : List Text
keys_answer = encode no_json (handle_keys externals none holding) ∷ []

execute_command-handle_keys_example :
    Lists
      (execute_command true keys_answer closed)
      (numbered 0 (take 1 (bulk_lines (keys externals none holding))))
      (with_ends (drop 1 (bulk_lines (keys externals none holding))) [])
unfolding Manager.list Manager.list_from
execute_command-handle_keys_example =
    execute_command-handle_keys externals no_json none holding keys_answer closed [] (omega arith)
      ((refl, unfold from_utf8_lossy lossy_from in refl), tt) refl

-- Of one id the client shows the length.
shown_length : (execute_command true keys_answer closed).shown ≡ shown_as plain (codes "1) $8") ∷ []
unfolding Manager.list Manager.list_from handle_keys encode encode_into put put_items put_bulk show
    show_from execute_command read_answer read_line read_until split_line from_utf8_lossy lossy_from
    text_eq display starts_with trim trim_end skip_space space_length parse_usize parse_digits
    show_items
shown_length = refl

abbrev lost : Exchange
lost = record { written = true; arrives = []; ending = closed; reconnection = reconnected }

abbrev begun : Session
begun = record { unread = []; trace = [] }

run_input-parse_example :
    (b : Text) × (sent_bytes (run_input (typed (codes " PING ")) lost begun).1.trace
      ≡ sent_bytes begun.trace ++ b)
    × (parse numbers (record { buffer = b ++ codes "GE" })
        ≡ (line_outcome numbers (trim (codes " PING ")), record { buffer = codes "GE" }))
run_input-parse_example =
    run_input-parse numbers (codes " PING ") (codes "GE") lost begun refl
      (unfold trim trim_end skip_space space_length to_uppercase upper_from text_eq in refl) refl

abbrev refusing : Response ℕ
refusing = Response.error (codes "AUTH_FAILED") (codes "Invalid password")

abbrev refused_auth : Exchange
refused_auth = record {
  written = true;
  arrives = encode no_json refusing ∷ [];
  ending = failing;
  reconnection = reconnected;
}

abbrev guessing : Args
guessing = record { password = some (codes "guess"); command = none; quiet = false }

authenticate-encode_example :
    let o = authenticate guessing refused_auth begun in
    (o.0 ≡ true)
    × (o.1.trace
        ≡ sends (codes "AUTH " ++ codes "guess" ++ 10 ∷ [])
          ∷ shows (displayed no_json refusing)
          ∷ shows (shown_as green (codes "Authenticated."))
          ∷ [])
authenticate-encode_example =
    authenticate-encode no_json refusing (codes "guess") guessing refused_auth [] refl refl refl
      (refl, unfold from_utf8_lossy lossy_from in refl)

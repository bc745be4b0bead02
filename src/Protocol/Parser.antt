-- ===== src/Protocol/Parser.antt =====
-- crates/ussl-protocol/src/parser.rs: `Parser`, which keeps the bytes that have come and cuts them into
-- lines, and the dispatch of a line to the parse function of its command.
pub mod Framing
pub mod Spelling
use ussl.Prelude.{
  ℕ, ◌+◌, ◌*◌, ◌||◌, [], ◌∷◌, ◌++◌, Option, none, some, length, ltb, ◌==◌, if◌then◌else◌,
}
use ussl.Text.{Text, codes, text_eq}
use ussl.Text.Space.{trim}
use ussl.Text.Utf8.{from_utf8_lossy}
use ussl.Text.Case.{to_uppercase}
use ussl.Protocol.Json.{SerdeJson, Json}
use ussl.Protocol.Command.New as New
use ussl.Protocol.Command.{Parsed, ok, err, ◌>>=◌, Command, invalid_command, message_too_large}
use ussl.Protocol.Tokenizer.{next_token}
use ussl.Protocol.Arguments.{
  parse_auth, parse_delete, parse_unsubscribe, parse_increment, parse_keys, parse_compact,
  parse_expire, parse_ttl,
}
use ussl.Protocol.Options.{
  parse_create, parse_get, parse_set, parse_subscribe, parse_push, parse_presence, parse_restore,
}

abbrev pub max_message_size : ℕ
max_message_size = 1024 * 1024

pub record Parser : Type 0 where
  pub buffer : Text

-- `Parser::new`
abbrev pub new_parser : Parser
new_parser = record { buffer = [] }

-- `Parser::feed`
unfoldable pub feed : Text → Parser → Parsed (Unit {0}) × Parser
feed bytes p =
    let size = length p.buffer + length bytes in
    if ltb max_message_size size
    then (err (message_too_large size max_message_size), p)
    else (ok tt, record { buffer = p.buffer ++ bytes })

-- the bytes before the first line feed and those behind it: `position` and `split_to`
unfoldable pub split_line : Text → Option (Text × Text)
split_line [] = none
split_line (c ∷ s) =
    if c == 10
    then some ([], s)
    else elim (split_line s) [ none ↦ none | some (line, r) ↦ some (c ∷ line, r) ]

-- A line without the carriage return at its end.
unfoldable pub without_return : Text → Text
without_return [] = []
without_return (c ∷ []) = if c == 13 then [] else c ∷ []
without_return (c ∷ d ∷ s) = c ∷ without_return (d ∷ s)

module _ {F : Type 0} (S : SerdeJson F) where
  -- the `match` of `parse_line` on the name in upper case
  unfoldable pub dispatch : Text → Text → Parsed (Command F (Json S.Number))
  dispatch cmd tokens =
      if text_eq cmd (codes "AUTH")
      then parse_auth tokens
      else if text_eq cmd (codes "CREATE")
      then parse_create S tokens
      else if text_eq cmd (codes "GET")
      then parse_get S tokens
      else if text_eq cmd (codes "SET")
      then parse_set S tokens
      else if text_eq cmd (codes "DEL") || text_eq cmd (codes "DELETE")
      then parse_delete tokens
      else if text_eq cmd (codes "SUB") || text_eq cmd (codes "SUBSCRIBE")
      then parse_subscribe S tokens
      else if text_eq cmd (codes "UNSUB") || text_eq cmd (codes "UNSUBSCRIBE")
      then parse_unsubscribe tokens
      else if text_eq cmd (codes "PUSH")
      then parse_push S tokens
      else if text_eq cmd (codes "INC")
          || text_eq cmd (codes "INCR")
          || text_eq cmd (codes "INCREMENT")
      then parse_increment tokens
      else if text_eq cmd (codes "PRESENCE")
      then parse_presence S tokens
      else if text_eq cmd (codes "PING")
      then ok New.ping
      else if text_eq cmd (codes "QUIT")
      then ok New.quit
      else if text_eq cmd (codes "INFO")
      then ok New.info
      else if text_eq cmd (codes "KEYS")
      then parse_keys tokens
      else if text_eq cmd (codes "COMPACT")
      then parse_compact tokens
      else if text_eq cmd (codes "EXPIRE")
      then parse_expire tokens
      else if text_eq cmd (codes "TTL")
      then parse_ttl tokens
      else if text_eq cmd (codes "BACKUP")
      then ok New.backup
      else if text_eq cmd (codes "RESTORE")
      then parse_restore S tokens
      else err (invalid_command (codes "Unknown command: " ++ cmd))

  abbrev pub command_of : Option Text × Text → Parsed (Command F (Json S.Number))
  command_of (none, s) = err (invalid_command (codes "Empty command"))
  command_of (some cmd, s) = dispatch (to_uppercase cmd) s

  abbrev pub parse_trimmed : Text → Parsed (Command F (Json S.Number))
  parse_trimmed [] = err (invalid_command (codes "Empty command"))
  parse_trimmed (c ∷ s) = command_of (next_token (c ∷ s))

  -- `Parser::parse_line`
  unfoldable pub parse_line : Text → Parsed (Command F (Json S.Number))
  parse_line line = parse_trimmed (trim line)

  -- `String::from_utf8_lossy(..)` and `parse_line(&line).map(Some)`
  unfoldable pub read_line : Text → Parsed (Option (Command F (Json S.Number)))
  read_line line = parse_line (from_utf8_lossy (without_return line)) >>= (λ cmd. ok (some cmd))

  -- `Parser::parse`; the line leaves the buffer before it is read
  unfoldable pub parse : Parser → Parsed (Option (Command F (Json S.Number))) × Parser
  parse p = elim (split_line p.buffer) [
    | none ↦ (ok none, p)
    | some (line, r) ↦ (read_line line, record { buffer = r })
  ]

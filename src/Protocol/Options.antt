-- ===== src/Protocol/Options.antt =====
-- crates/ussl-protocol/src/parser.rs: the parse functions of the commands with options behind their
-- arguments, and of those that end with a value. A loop over the options runs over the tokens that
-- `next` gives.
use ussl.Prelude.{ℕ, List, [], ◌∷◌, ◌++◌, Option, none, some, if◌then◌else◌}
use ussl.Text.{Text, codes, text_eq}
use ussl.Text.Space.{trim}
use ussl.Text.Case.{to_uppercase}
use ussl.Core.Error as Core
use ussl.Core.Path.{parse_usize}
use ussl.Core.Strategy.{Strategy, default, parse_strategy}
use ussl.Protocol.Json.{SerdeJson, Json, parse_value}
use ussl.Protocol.Command.New as New
use ussl.Protocol.Command.{
  Parsed, ok, err, ◌>>=◌, missing_argument, invalid_argument, invalid_json, Command,
}
use ussl.Protocol.Tokenizer.{next_token, rest}
use ussl.Protocol.Tokenizer.Tokens.{tokens_of}
use ussl.Protocol.Arguments.{required, argument, or_invalid}

-- `s.parse().ok()`
abbrev strategy_ok : Core.Result Strategy → Option Strategy
strategy_ok (Core.ok s) = some s
strategy_ok (Core.err e) = none
strategy_ok Core.hang = none

-- the loop of `parse_create`, with the variables `strategy` and `ttl`
unfoldable pub create_options : List Text → Strategy → Option ℕ → Parsed (Strategy × Option ℕ)
create_options [] strategy ttl = ok (strategy, ttl)
create_options (opt ∷ []) strategy ttl =
    if text_eq (to_uppercase opt) (codes "STRATEGY")
    then err (missing_argument (codes "strategy value"))
    else if text_eq (to_uppercase opt) (codes "TTL")
    then err (missing_argument (codes "ttl value"))
    else err (invalid_argument (codes "Unknown option: " ++ opt))
create_options (opt ∷ v ∷ opts) strategy ttl =
    let with_strategy : Strategy → Parsed (Strategy × Option ℕ) = λ s. create_options opts s ttl in
    let with_ttl : ℕ → Parsed (Strategy × Option ℕ) = λ t. create_options opts strategy (some t) in
    if text_eq (to_uppercase opt) (codes "STRATEGY")
    then or_invalid (codes "Invalid strategy: ") v (strategy_ok (parse_strategy v))
      >>= with_strategy
    else if text_eq (to_uppercase opt) (codes "TTL")
    then or_invalid (codes "Invalid TTL: ") v (parse_usize v) >>= with_ttl
    else err (invalid_argument (codes "Unknown option: " ++ opt))

-- the loop of `parse_get`, where an option that is not PATH is the path itself
unfoldable pub get_options : List Text → Option Text → Parsed (Option Text)
get_options [] path = ok path
get_options (opt ∷ []) path =
    if text_eq (to_uppercase opt) (codes "PATH")
    then err (missing_argument (codes "path value"))
    else ok (some opt)
get_options (opt ∷ p ∷ opts) path =
    let behind_word = get_options opts (some p) in
    let behind_path = get_options (p ∷ opts) (some opt) in
    if text_eq (to_uppercase opt) (codes "PATH") then behind_word else behind_path

-- the loop of `parse_subscribe`
unfoldable pub subscribe_options : List Text → Option Text → Parsed (Option Text)
subscribe_options [] path = ok path
subscribe_options (opt ∷ []) path =
    if text_eq (to_uppercase opt) (codes "PATH")
    then err (missing_argument (codes "path value"))
    else err (invalid_argument (codes "Unknown option: " ++ opt))
subscribe_options (opt ∷ p ∷ opts) path =
    let behind_word = subscribe_options opts (some p) in
    if text_eq (to_uppercase opt) (codes "PATH")
    then behind_word
    else err (invalid_argument (codes "Unknown option: " ++ opt))

-- `tokens.rest().ok_or_else(|| ProtocolError::MissingArgument(name))?`
abbrev pub remainder : Text → Text → Parsed (Text × Text)
remainder name s = required name (rest s)

abbrev or_empty : Option Text → Text
or_empty none = []
or_empty (some t) = t

module _ {F : Type 0} (S : SerdeJson F) where
  unfoldable pub parse_create : Text → Parsed (Command F (Json S.Number))
  parse_create s = do
    id ← argument (codes "document_id") s
    opts ← create_options (tokens_of id.1) default none
    ok (New.create id.0 opts.0 opts.1)

  unfoldable pub parse_get : Text → Parsed (Command F (Json S.Number))
  parse_get s = do
    id ← argument (codes "document_id") s
    path ← get_options (tokens_of id.1) none
    ok (New.get id.0 path)

  unfoldable pub parse_set : Text → Parsed (Command F (Json S.Number))
  parse_set s = do
    id ← argument (codes "document_id") s
    path ← argument (codes "path") id.1
    value_str ← remainder (codes "value") path.1
    value ← parse_value S value_str.0
    ok (New.set id.0 path.0 value)

  unfoldable pub parse_subscribe : Text → Parsed (Command F (Json S.Number))
  parse_subscribe s = do
    pattern ← argument (codes "pattern") s
    path ← subscribe_options (tokens_of pattern.1) none
    ok (New.subscribe pattern.0 path)

  unfoldable pub parse_push : Text → Parsed (Command F (Json S.Number))
  parse_push s = do
    id ← argument (codes "document_id") s
    path ← argument (codes "path") id.1
    value_str ← remainder (codes "value") path.1
    value ← parse_value S value_str.0
    ok (New.push id.0 path.0 value)

  -- `serde_json::from_str(s).map_err(|e| ProtocolError::InvalidJson(e.to_string()))?`
  abbrev checked_json : Text → Option (Json S.Number) → Parsed (Json S.Number)
  checked_json s none = err (invalid_json (S.from_str_message s))
  checked_json s (some json) = ok json

  abbrev read_json : Text → Parsed (Json S.Number)
  read_json s = checked_json s (S.from_str s)

  -- The loop of `parse_presence` has one round at most: behind DATA `rest` leaves nothing, and any
  -- other option ends the loop.
  abbrev presence_data : Option Text × Text → Parsed (Option (Json S.Number))
  presence_data (none, s) = ok none
  presence_data (some opt, s) =
      if text_eq (to_uppercase opt) (codes "DATA")
      then (do
        json_str ← remainder (codes "data value") s
        json ← read_json json_str.0
        ok (some json))
      else (read_json (trim (opt ++ codes " " ++ or_empty (rest s).0)) >>= λ json. ok (some json))

  unfoldable pub parse_presence : Text → Parsed (Command F (Json S.Number))
  parse_presence s = do
    id ← argument (codes "document_id") s
    payload ← presence_data (next_token id.1)
    ok (New.presence id.0 payload)

  unfoldable pub parse_restore : Text → Parsed (Command F (Json S.Number))
  parse_restore s = do
    json_data ← remainder (codes "json_data") s
    let trimmed = trim json_data.0
    json ← read_json trimmed
    ok (New.restore trimmed)

-- ===== src/Protocol/Arguments.antt =====
-- crates/ussl-protocol/src/parser.rs: the parse functions of the commands whose arguments are tokens.
-- Each takes what the tokenizer has left behind the command's name.
pub mod Spelling
use ussl.Prelude.{
  ℕ, zero, suc, ◌+◌, ◌-◌, ◌^◌, ◌&&◌, List, [], ◌∷◌, ◌++◌, Option, none, some, ltb, leb, ◌==◌,
  if◌then◌else◌, map,
}
use ussl.Prelude.Int.{ℤ, pos, negsuc}
use ussl.Text.{Text, codes, text_eq}
use ussl.Text.Case.{to_uppercase}
use ussl.Core.Path.{parse_digits, parse_usize}
use ussl.Protocol.Command.New as New
use ussl.Protocol.Command.{Parsed, ok, err, ◌>>=◌, missing_argument, invalid_argument, Command}
use ussl.Protocol.Tokenizer.{next_token}

-- `tokens.next().ok_or_else(|| ProtocolError::MissingArgument(name))?`, and the rest of the tokens
abbrev pub required : Text → Option Text × Text → Parsed (Text × Text)
required name (none, s) = err (missing_argument name)
required name (some t, s) = ok (t, s)

abbrev pub argument : Text → Text → Parsed (Text × Text)
argument name s = required name (next_token s)

-- `map_err(|_| ProtocolError::InvalidArgument(..))?`
abbrev pub or_invalid {ℓ} : {A : Type ℓ} → Text → Text → Option A → Parsed A
or_invalid what t none = err (invalid_argument (what ++ t))
or_invalid what t (some a) = ok a

abbrev minus : ℕ → ℤ
minus zero = pos 0
minus (suc n) = negsuc n

abbrev in_range : Option ℕ → Option ℤ
in_range none = none
in_range (some n) = if ltb n (2 ^ 63) then some (pos n) else none

abbrev in_negative_range : Option ℕ → Option ℤ
in_negative_range none = none
in_negative_range (some n) = if leb n (2 ^ 63) then some (minus n) else none

abbrev some_digits : Text → Option ℕ
some_digits [] = none
some_digits (d ∷ s) = parse_digits 0 (d ∷ s)

-- `str::parse::<i64>`
unfoldable pub parse_i64 : Text → Option ℤ
parse_i64 [] = none
parse_i64 (c ∷ s) =
    if c == b'-' then in_negative_range (some_digits s) else in_range (parse_usize (c ∷ s))

-- the option behind a document of DEL: a path, which may follow the word PATH
abbrev delete_path : Option Text × Text → Parsed (Option Text)
delete_path (none, s) = ok none
delete_path (some opt, s) =
    if text_eq (to_uppercase opt) (codes "PATH")
    then (argument (codes "path value") s >>= λ p. ok (some p.0))
    else ok (some opt)

abbrev or_one : Option Text → Text
or_one none = codes "1"
or_one (some t) = t

module _ {F J : Type 0} where
  unfoldable pub parse_auth : Text → Parsed (Command F J)
  parse_auth s = do password ← argument (codes "password") s; ok (New.auth password.0)

  unfoldable pub parse_delete : Text → Parsed (Command F J)
  parse_delete s = do
    id ← argument (codes "document_id") s
    path ← delete_path (next_token id.1)
    ok (New.delete id.0 path)

  unfoldable pub parse_unsubscribe : Text → Parsed (Command F J)
  parse_unsubscribe s = do pattern ← argument (codes "pattern") s; ok (New.unsubscribe pattern.0)

  unfoldable pub parse_increment : Text → Parsed (Command F J)
  parse_increment s = do
    id ← argument (codes "document_id") s
    path ← argument (codes "path") id.1
    let delta_str = or_one (next_token path.1).0
    delta ← or_invalid (codes "Invalid delta: ") delta_str (parse_i64 delta_str)
    ok (New.increment id.0 path.0 delta)

  unfoldable pub parse_keys : Text → Parsed (Command F J)
  parse_keys s = ok (New.keys (next_token s).0)

  unfoldable pub parse_compact : Text → Parsed (Command F J)
  parse_compact s = do id ← argument (codes "document_id") s; ok (New.compact id.0)

  unfoldable pub parse_expire : Text → Parsed (Command F J)
  parse_expire s = do
    id ← argument (codes "document_id") s
    ttl_str ← argument (codes "ttl_ms") id.1
    ttl_ms ← or_invalid (codes "Invalid TTL: ") ttl_str.0 (parse_usize ttl_str.0)
    ok (New.expire id.0 ttl_ms)

  unfoldable pub parse_ttl : Text → Parsed (Command F J)
  parse_ttl s = do id ← argument (codes "document_id") s; ok (New.ttl id.0)

-- ===== src/Protocol/Command.antt =====
-- crates/ussl-protocol/src/command.rs and error.rs: the commands, and the errors of the protocol.
-- `serde_json::Value` is the type `J`.
pub mod New
use ussl.Prelude.{ℕ, Option, none, some}
use ussl.Prelude.Int.{ℤ}
use ussl.Text.{Text}
use ussl.Core.Error.{Error}
use ussl.Core.Strategy.{Strategy}
use ussl.Core.Value.{Value}

pub data ProtocolError : Type 0 where
  invalid_command : Text → ProtocolError
  missing_argument : Text → ProtocolError
  invalid_argument : Text → ProtocolError
  parse_error : Text → ProtocolError
  incomplete : ProtocolError
  message_too_large : ℕ → ℕ → ProtocolError
  invalid_json : Text → ProtocolError
  core : Error → ProtocolError

-- `ProtocolResult<T>`
pub data Parsed {ℓ} (A : Type ℓ) : Type ℓ where
  ok : A → Parsed A
  err : ProtocolError → Parsed A

infixl 5 ◌>>=◌
abbrev pub ◌>>=◌ {ℓ κ} : {A : Type ℓ} {B : Type κ} → Parsed A → (A → Parsed B) → Parsed B
ok a >>= f = f a
err e >>= f = err e

pub data CommandKind (F J : Type 0) : Type 0 where
  auth : Text → CommandKind F J
  create : Strategy → Option ℕ → CommandKind F J
  get : Option Text → CommandKind F J
  set : Text → Value F → CommandKind F J
  delete : Option Text → CommandKind F J
  subscribe : Text → Option Text → CommandKind F J
  unsubscribe : Text → CommandKind F J
  push : Text → Value F → CommandKind F J
  increment : Text → ℤ → CommandKind F J
  presence : Option J → CommandKind F J
  ping : CommandKind F J
  quit : CommandKind F J
  info : CommandKind F J
  keys : Option Text → CommandKind F J
  compact : CommandKind F J
  expire : ℕ → CommandKind F J
  ttl : CommandKind F J
  backup : CommandKind F J
  restore : Text → CommandKind F J

pub record Command (F J : Type 0) : Type 0 where
  pub kind : CommandKind F J
  pub document_id : Option Text

-- ===== src/Protocol/Command/New.antt =====
-- crates/ussl-protocol/src/command.rs: the functions of `impl Command`.
use ussl.Prelude.{ℕ, Option, none, some}
use ussl.Prelude.Int.{ℤ}
use ussl.Text.{Text}
use ussl.Core.Strategy.{Strategy}
use ussl.Core.Value.{Value}
use ussl.Protocol.Command as Kind
use ussl.Protocol.Command.{Command}

module _ {F J : Type 0} where
  abbrev pub create : Text → Strategy → Option ℕ → Command F J
  create id strategy ttl = record { kind = Kind.create strategy ttl; document_id = some id }

  abbrev pub get : Text → Option Text → Command F J
  get id path = record { kind = Kind.get path; document_id = some id }

  abbrev pub set : Text → Text → Value F → Command F J
  set id path value = record { kind = Kind.set path value; document_id = some id }

  abbrev pub delete : Text → Option Text → Command F J
  delete id path = record { kind = Kind.delete path; document_id = some id }

  abbrev pub subscribe : Text → Option Text → Command F J
  subscribe pattern path = record { kind = Kind.subscribe pattern path; document_id = some pattern }

  abbrev pub unsubscribe : Text → Command F J
  unsubscribe pattern = record { kind = Kind.unsubscribe pattern; document_id = some pattern }

  abbrev pub push : Text → Text → Value F → Command F J
  push id path value = record { kind = Kind.push path value; document_id = some id }

  abbrev pub increment : Text → Text → ℤ → Command F J
  increment id path delta = record { kind = Kind.increment path delta; document_id = some id }

  abbrev pub presence : Text → Option J → Command F J
  presence id payload = record { kind = Kind.presence payload; document_id = some id }

  abbrev pub ping : Command F J
  ping = record { kind = Kind.ping; document_id = none }

  abbrev pub quit : Command F J
  quit = record { kind = Kind.quit; document_id = none }

  abbrev pub info : Command F J
  info = record { kind = Kind.info; document_id = none }

  abbrev pub keys : Option Text → Command F J
  keys pattern = record { kind = Kind.keys pattern; document_id = none }

  abbrev pub auth : Text → Command F J
  auth password = record { kind = Kind.auth password; document_id = none }

  abbrev pub compact : Text → Command F J
  compact id = record { kind = Kind.compact; document_id = some id }

  abbrev pub expire : Text → ℕ → Command F J
  expire id ttl_ms = record { kind = Kind.expire ttl_ms; document_id = some id }

  abbrev pub ttl : Text → Command F J
  ttl id = record { kind = Kind.ttl; document_id = some id }

  abbrev pub backup : Command F J
  backup = record { kind = Kind.backup; document_id = none }

  abbrev pub restore : Text → Command F J
  restore bytes = record { kind = Kind.restore bytes; document_id = none }

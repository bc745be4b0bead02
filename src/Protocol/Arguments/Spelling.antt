-- ===== src/Protocol/Arguments/Spelling.antt =====
-- crates/ussl-protocol/src/parser.rs: the commands that are read from spelled arguments.
use ussl.Prelude.{◌≡◌, refl, [], ◌∷◌}
use ussl.Prelude.Int.{pos}
use ussl.Text.{codes}
use ussl.Core.Path.{parse_usize, parse_digits}
use ussl.Protocol.Command.New.{increment, expire}
use ussl.Protocol.Command.{ok, err, ◌>>=◌, missing_argument}
use ussl.Protocol.Tokenizer.Spelling.{
  Argument, IsArgument, meaning, spell, next_token-argument, next_token-nil,
}
use ussl.Protocol.Arguments.{parse_i64, parse_increment, parse_expire, or_invalid}

module _ {F J : Type 0} where
  -- INC with a document, a path and a delta reads these three, and refuses a delta that is no number
  -- of 64 bits; without a delta it reads 1.
  parse_increment-spell :
      (id path delta : Argument)
      → IsArgument id
      → IsArgument path
      → IsArgument delta
      → (parse_increment {F = F} {J = J} (spell (id ∷ path ∷ delta ∷ [])) ≡ (
          or_invalid (codes "Invalid delta: ") (meaning delta) (parse_i64 (meaning delta)) >>= λ n.
          ok (increment (meaning id) (meaning path) n)))
        × (parse_increment {F = F} {J = J} (spell (id ∷ path ∷ []))
            ≡ ok (increment (meaning id) (meaning path) (pos 1)))
  unfolding parse_increment
  parse_increment-spell id path delta i p d = (
    rw
        (
          next_token-argument id (spell (path ∷ delta ∷ [])) i refl,
          next_token-argument path (spell (delta ∷ [])) p refl,
          next_token-argument delta [] d tt,
        )
        refl,
    rw
        (
          next_token-argument id (spell (path ∷ [])) i refl,
          next_token-argument path [] p tt,
          next_token-nil,
        )
        (unfold parse_i64 parse_usize parse_digits in refl),
  )

  -- EXPIRE with a document and a time reads both, and refuses a time that is no number of 64 bits and
  -- a line without the time.
  parse_expire-spell :
      (id ms : Argument)
      → IsArgument id
      → IsArgument ms
      → (parse_expire {F = F} {J = J} (spell (id ∷ ms ∷ [])) ≡ (
          or_invalid (codes "Invalid TTL: ") (meaning ms) (parse_usize (meaning ms)) >>= λ n.
          ok (expire (meaning id) n)))
        × (parse_expire {F = F} {J = J} (spell (id ∷ [])) ≡ err (missing_argument (codes "ttl_ms")))
  unfolding parse_expire
  parse_expire-spell id ms i m = (
    rw (next_token-argument id (spell (ms ∷ [])) i refl, next_token-argument ms [] m tt) refl,
    rw (next_token-argument id [] i tt, next_token-nil) refl,
  )

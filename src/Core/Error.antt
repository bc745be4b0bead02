-- ===== src/Core/Error.antt =====
-- crates/ussl-core/src/error.rs, with the outcomes of an operation.
use ussl.Prelude.{ℕ}
use ussl.Text.{Text}

pub data Error : Type 0 where
  document_not_found : Text → Error
  invalid_document_id : Text → Error
  invalid_path : Text → Error
  strategy_mismatch : Text → Text → Error
  document_exists : Text → Error
  serialization : Text → Error
  crdt : Text → Error
  document_too_large : ℕ → ℕ → Error
  nesting_too_deep : ℕ → ℕ → Error
  invalid_strategy : Text → Error
  restore_error : Text → Error

-- `hang` is a call that does not return: the iterator over a path calls itself without end.
pub data Result {ℓ} (A : Type ℓ) : Type ℓ where
  ok : A → Result A
  err : Error → Result A
  hang : Result A

infixl 5 ◌>>=◌
abbrev pub ◌>>=◌ {ℓ κ} : {A : Type ℓ} {B : Type κ} → Result A → (A → Result B) → Result B
ok a >>= f = f a
err e >>= f = err e
hang >>= f = hang

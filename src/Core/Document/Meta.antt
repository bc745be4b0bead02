-- ===== src/Core/Document/Meta.antt =====
-- crates/ussl-core/src/document.rs: `DocumentMeta`. The clock in milliseconds, `now`, is an argument.
use mathlib.Core.Option
use ussl.Prelude.{ℕ, Bool, false, Option, none, some, ltb}
use ussl.Prelude.Int.{ℤ}
use ussl.Prelude.Word.{add64, to_i64, sub_i64}
use ussl.Text.{Text}
use ussl.Core.Strategy.{Strategy}

pub record DocumentMeta : Type 0 where
  pub id : Text
  pub strategy : Strategy
  pub created_at : ℕ
  pub updated_at : ℕ
  pub version : ℕ
  pub ttl : Option ℕ

-- `DocumentMeta::new` and `with_ttl`
unfoldable pub new_meta : ℕ → Text → Strategy → Option ℕ → DocumentMeta
new_meta now id strategy ttl = record {
  id = id;
  strategy = strategy;
  created_at = now;
  updated_at = now;
  version = 1;
  ttl = ttl;
}

abbrev expired_ttl : ℕ → ℕ → Option ℕ → Bool
expired_ttl now created none = false
expired_ttl now created (some ttl_ms) = ltb (add64 created ttl_ms) now

-- `is_expired`
unfoldable pub is_expired : ℕ → DocumentMeta → Bool
unfolding add64
is_expired now m = expired_ttl now m.created_at m.ttl

-- `ttl_remaining`
unfoldable pub ttl_remaining : ℕ → DocumentMeta → Option ℤ
ttl_remaining now m =
    Option.map (λ ttl_ms. sub_i64 (to_i64 (add64 m.created_at ttl_ms)) (to_i64 now)) m.ttl

-- the version and the time of `Document::update_version`
unfoldable pub touch : ℕ → DocumentMeta → DocumentMeta
touch now m = record m { version = add64 m.version 1; updated_at = now }

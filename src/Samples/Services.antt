-- ===== src/Samples/Services.antt =====
-- The rate limiter, the storage, the responses and the tokenizer.
use ussl.Prelude.{
  List, ℕ, ◌+◌, ◌-◌, ◌*◌, ◌%◌, ◌≤◌, ◌≡◌, refl, ap, sym, ◌∙◌, some_inj, zero, suc, [], ◌∷◌, ◌++◌,
  Option, none, some, arith,
}
use ussl.Prelude.Word.{u64_mod}
use ussl.Text.{Text, codes}
use ussl.Core.Strategy.{Strategy, lww, crdt_counter, crdt_set, crdt_map, crdt_text}
use ussl.Core.Document.Meta.{DocumentMeta}
use ussl.Transport.RateLimit.{RateLimitConfig, RateLimiter, new_limiter, acquire_all}
use ussl.Transport.RateLimit.Bounds.{acquire_all-le}
use ussl.Storage.Memory.{Json, MemoryStorage, new_storage, store, delete, stats}
use ussl.Storage.Memory.Contract.{JsonLaws, Loads, load-store}
use ussl.Storage.Memory.Size.{size_of, start, stored, deleted, stats-size_of}
use ussl.Core.Value.{Value, string}
use ussl.Protocol.Response.{bulk, value, encode, or_null}
use ussl.Protocol.Response.Base64.{base64_encode, base64_decode, base64_decode-base64_encode}
use ussl.Protocol.Response.Frame.{read_bulk, read_bulk-encode}
use ussl.Protocol.Tokenizer.Spelling.{Argument, plain, quoted}
use ussl.Samples.Documents.{user}

abbrev slow : RateLimitConfig
slow = record { requests_per_second = 500; burst_size = 2 }

-- a limiter that has let its burst through
abbrev spent : RateLimiter
spent = record {
  tokens = 0;
  last_refill = 1000000;
  config = slow;
  tokens_per_ms = 500;
  max_tokens = 2000;
}

acquire_all-le_example :
    1000000000 * (acquire_all (5 ∷ 7 ∷ 9 ∷ 4000000 ∷ []) (new_limiter 5 slow)).0
    ≤ 1000000000 * 2 + 500 * (5000000 - 5)
acquire_all-le_example =
    acquire_all-le 5 5000000 slow (5 ∷ 7 ∷ 9 ∷ 4000000 ∷ []) (omega arith)
      (omega arith, (omega arith, (omega arith, (omega arith, tt))))

abbrev pub meta : DocumentMeta
meta = record { id = user; strategy = lww; created_at = 1; updated_at = 1; version = 1; ttl = none }

abbrev strategy_code : Strategy → ℕ
strategy_code lww = 0
strategy_code crdt_counter = 1
strategy_code crdt_set = 2
strategy_code crdt_map = 3
strategy_code crdt_text = 4

abbrev strategy_of : ℕ → Strategy
strategy_of zero = lww
strategy_of (suc zero) = crdt_counter
strategy_of (suc (suc zero)) = crdt_set
strategy_of (suc (suc (suc zero))) = crdt_map
strategy_of _ = crdt_text

abbrev ttl_code : Option ℕ → ℕ
ttl_code none = 0
ttl_code (some n) = suc n

abbrev ttl_of : ℕ → Option ℕ
ttl_of zero = none
ttl_of (suc n) = some n

abbrev read_fields : Text → Option DocumentMeta
read_fields (created ∷ updated ∷ version ∷ strategy ∷ ttl ∷ id) = some (record {
  id = id;
  strategy = strategy_of strategy;
  created_at = created;
  updated_at = updated;
  version = version;
  ttl = ttl_of ttl;
})
read_fields _ = none

abbrev write_fields : DocumentMeta → Text
write_fields m =
    m.created_at ∷ m.updated_at ∷ m.version ∷ strategy_code m.strategy ∷ ttl_code m.ttl ∷ m.id

-- metadata written as a row of numbers
abbrev pub fields : Json
fields = record {
  to_vec = λ m. some (write_fields m);
  to_vec_message = λ m. codes "no";
  from_slice = read_fields;
  from_slice_message = λ s. codes "no";
}

strategy_of-strategy_code : (s : Strategy) → strategy_of (strategy_code s) ≡ s
strategy_of-strategy_code lww = refl
strategy_of-strategy_code crdt_counter = refl
strategy_of-strategy_code crdt_set = refl
strategy_of-strategy_code crdt_map = refl
strategy_of-strategy_code crdt_text = refl

ttl_of-ttl_code : (t : Option ℕ) → ttl_of (ttl_code t) ≡ t
ttl_of-ttl_code none = refl
ttl_of-ttl_code (some n) = refl

fields_laws : JsonLaws fields
fields_laws = record {
  from_slice-to_vec = λ m bytes e.
      ap read_fields (sym (some_inj e))
      ∙ rw (strategy_of-strategy_code m.strategy, ttl_of-ttl_code m.ttl) refl;
}

abbrev kept : MemoryStorage
kept = record { entries = (user, (codes "{", codes "abc")) ∷ []; total_size = 4 }

load-store_example :
    Loads fields user meta (codes "abcd") kept user (store fields user meta (codes "abcd") kept)
load-store_example = load-store fields fields_laws user user meta (codes "abcd") kept

stats-size_of_example :
    (stats (delete user (store fields user meta (codes "abc") new_storage).1).1).total_size_bytes
    ≡ size_of (delete user (store fields user meta (codes "abc") new_storage).1).1.entries % u64_mod
stats-size_of_example = stats-size_of fields _ (deleted user (stored user meta (codes "abc") start))

base64_decode-base64_encode_example :
    base64_decode (base64_encode (255 ∷ 0 ∷ 17 ∷ 130 ∷ [])) ≡ some (255 ∷ 0 ∷ 17 ∷ 130 ∷ [])
base64_decode-base64_encode_example =
    base64_decode-base64_encode (255 ∷ 0 ∷ 17 ∷ 130 ∷ [])
      (omega arith, (omega arith, (omega arith, (omega arith, tt))))

abbrev to_quoted : Value ℕ → Option Text
to_quoted (string s) = some (codes "\"" ++ s ++ codes "\"")
to_quoted v = none

read_bulk-encode_example :
    (read_bulk (encode to_quoted (bulk (13 ∷ 10 ∷ 0 ∷ [])) ++ codes ":1")
      ≡ some (13 ∷ 10 ∷ 0 ∷ [], codes ":1"))
    × (read_bulk (encode to_quoted (value (string (codes "hi"))) ++ codes ":1")
        ≡ some (or_null (to_quoted (string (codes "hi"))), codes ":1"))
read_bulk-encode_example =
    read_bulk-encode to_quoted (13 ∷ 10 ∷ 0 ∷ []) (string (codes "hi")) (codes ":1") (omega arith)
      (omega arith)

abbrev arguments : List Argument
arguments = plain (codes "SET") ∷ quoted (codes "a b") ∷ plain (codes "x.y") ∷ []

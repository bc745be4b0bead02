-- ===== src/Core/Manager/Remaining.antt =====
-- crates/ussl-core/src/manager.rs: what a backup and its restoration keep of a time to live.
use mathlib.Core.Option
use ussl.Prelude.{
  ℕ, zero, suc, ◌+◌, ◌-◌, ◌%◌, ◌^◌, ◌<◌, ◌≡◌, refl, ap, ◌∙◌, ltb, ◌&&◌, Option, none, some, arith,
  if◌then◌else◌,
}
use ussl.Prelude.Int.{◌-ℤ◌}
use ussl.Prelude.Word.{add64, sub_i64, to_i64, wrap_i64}
use ussl.Core.Document.Meta.{DocumentMeta, ttl_remaining}
use ussl.Core.Manager.Backup.{positive_ttl}

-- What is left at `now` of a time to live that began at `created`, on clocks of 64 bits: the
-- milliseconds from `now` to its end, or none where it has no end, or its end is `now` or before it.
abbrev pub left_of : ℕ → ℕ → Option ℕ → Option ℕ
left_of now created none = none
left_of now created (some ttl) =
    let left = (created + ttl + (2 ^ 64 - now)) % 2 ^ 64 in
    if ltb 0 left && ltb left (2 ^ 63) then some left else none

sub_i64-to_i64 :
    (a b : ℕ)
    → a < 2 ^ 64
    → b < 2 ^ 64
    → sub_i64 (to_i64 a) (to_i64 b) ≡ to_i64 ((a + (2 ^ 64 - b)) % 2 ^ 64)
unfolding sub_i64 wrap_i64 to_i64 ◌-ℤ◌
sub_i64-to_i64 a b h k = ground arith

positive_ttl-to_i64 :
    (n : ℕ)
    → n < 2 ^ 64
    → positive_ttl (some (to_i64 n)) ≡ (if ltb 0 n && ltb n (2 ^ 63) then some n else none)
unfolding to_i64
positive_ttl-to_i64 zero h = refl
positive_ttl-to_i64 (suc n) h = ground arith

pub positive_ttl-ttl_remaining :
    (now : ℕ) (m : DocumentMeta)
    → now < 2 ^ 64
    → positive_ttl (ttl_remaining now m) ≡ left_of now m.created_at m.ttl
unfolding ttl_remaining add64
positive_ttl-ttl_remaining now m h = go m.created_at m.ttl
  where
    go :
        (created : ℕ) (ttl : Option ℕ)
        → positive_ttl (Option.map (λ t. sub_i64 (to_i64 (add64 created t)) (to_i64 now)) ttl)
          ≡ left_of now created ttl
    go created none = refl
    go created (some t) =
        let left = (created + t + (2 ^ 64 - now)) % 2 ^ 64 in
        let wrapped : ((created + t) % 2 ^ 64 + (2 ^ 64 - now)) % 2 ^ 64 ≡ left = omega arith in
        ap (λ z. positive_ttl (some z))
          (sub_i64-to_i64 ((created + t) % 2 ^ 64) now (omega arith) h ∙ ap to_i64 wrapped)
        ∙ positive_ttl-to_i64 left (omega arith)

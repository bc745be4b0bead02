-- ===== src/Transport/Metrics/Counting.antt =====
-- crates/ussl-transport/src/metrics.rs: what the metrics say after any sequence of the `record_` methods.
use ussl.Prelude.{
  ℕ, ◌+◌, ◌≡◌, refl, Bool, true, false, ◌&&◌, List, [], ◌∷◌, ◌∙◌, arith, if◌then◌else◌,
}
use ussl.Prelude.Int.{ℤ, pos, ◌+ℤ◌, ◌-ℤ◌, int_laws}
use ussl.Text.{Text, text_eq}
use ussl.Transport.Metrics.{
  Prometheus, name_of, connections_total, connections_active, commands_total, commands_errors,
  record_connection, record_disconnection, record_command, record_error, set_document_count,
  record_bytes,
}

-- whether a metric's labels have these values
abbrev pub labels_eq : List Text → List Text → Bool
labels_eq [] [] = true
labels_eq (a ∷ ls) (b ∷ ks) = text_eq a b && labels_eq ls ks
labels_eq _ _ = false

abbrev pub is_value : Text → List Text → Text → List Text → Bool
is_value n ls m ks = text_eq n m && labels_eq ls ks

-- What `prometheus` documents of counters and gauges: each operation changes the one value that the
-- name and the labels mean, by the number given; the values of a histogram are none of them.
pub record ValueLaws (P : Prometheus) : Type 0 where
  pub value : Text → List Text → P.Registry → ℤ
  pub value-inc :
      (n m : Text) (ls ks : List Text) (r : P.Registry)
      → value n ls (P.inc m ks r)
        ≡ (if is_value n ls m ks then value n ls r +ℤ pos 1 else value n ls r)
  pub value-dec :
      (n m : Text) (ls ks : List Text) (r : P.Registry)
      → value n ls (P.dec m ks r)
        ≡ (if is_value n ls m ks then value n ls r -ℤ pos 1 else value n ls r)
  pub value-set :
      (n m : Text) (ls : List Text) (v : ℤ) (r : P.Registry)
      → value n ls (P.set m v r) ≡ (if is_value n ls m [] then v else value n ls r)
  pub value-inc_by :
      (n m : Text) (ls : List Text) (k : ℕ) (r : P.Registry)
      → value n ls (P.inc_by m k r)
        ≡ (if is_value n ls m [] then value n ls r +ℤ pos k else value n ls r)
  pub value-observe :
      (n m : Text) (ls ks : List Text) (v : P.Float) (r : P.Registry)
      → value n ls (P.observe m ks v r) ≡ value n ls r

-- A call of one of the `record_` methods.
pub data Recording (Float : Type 0) : Type 0 where
  connection : Text → Recording Float
  disconnection : Text → Recording Float
  command : Text → Float → Recording Float
  error : Text → Text → Recording Float
  document_count : ℤ → Recording Float
  bytes : ℕ → ℕ → Recording Float

module _ (P : Prometheus) where
  abbrev pub record_one : Recording P.Float → P.Registry → P.Registry
  record_one (connection t) r = record_connection P t r
  record_one (disconnection t) r = record_disconnection P t r
  record_one (command c d) r = record_command P c d r
  record_one (error c e) r = record_error P c e r
  record_one (document_count n) r = set_document_count P n r
  record_one (bytes received sent) r = record_bytes P received sent r

  abbrev pub record_all : List (Recording P.Float) → P.Registry → P.Registry
  record_all [] r = r
  record_all (e ∷ es) r = record_all es (record_one e r)

module _ {Float : Type 0} where
  abbrev pub is_connection : Text → Recording Float → Bool
  is_connection t (connection u) = text_eq t u
  is_connection t _ = false

  abbrev pub is_disconnection : Text → Recording Float → Bool
  is_disconnection t (disconnection u) = text_eq t u
  is_disconnection t _ = false

  abbrev pub is_command : Text → Recording Float → Bool
  is_command t (command u d) = text_eq t u
  is_command t _ = false

  abbrev pub is_error : Text → Text → Recording Float → Bool
  is_error t k (error u l) = text_eq t u && text_eq k l
  is_error t k _ = false

  abbrev pub occurrences : (Recording Float → Bool) → List (Recording Float) → ℕ
  occurrences p [] = 0
  occurrences p (e ∷ es) = (if p e then 1 else 0) + occurrences p es

counted_step :
    (a : ℤ) (b : Bool) (n : ℕ)
    → (if b then a +ℤ pos 1 else a) +ℤ pos n ≡ a +ℤ pos ((if b then 1 else 0) + n)
counted_step a true n = omega int_laws
counted_step a false n = omega int_laws

active_step :
    (a : ℤ) (b c : Bool)
    → (b && c) ≡ false
    → (m n : ℕ)
    → ((if b then a +ℤ pos 1 else if c then a -ℤ pos 1 else a) +ℤ pos m) -ℤ pos n
      ≡ (a +ℤ pos ((if b then 1 else 0) + m)) -ℤ pos ((if c then 1 else 0) + n)
active_step a true true h m n = absurd (cc)
active_step a true false h m n = omega int_laws
active_step a false true h m n = omega int_laws
active_step a false false h m n = omega int_laws

apart :
    {Float : Type 0} (t : Text) (e : Recording Float)
    → (is_connection t e && is_disconnection t e) ≡ false
apart t (connection u) = ground arith
apart t (disconnection u) = refl
apart t (command c d) = refl
apart t (error c k) = refl
apart t (document_count n) = refl
apart t (bytes received sent) = refl

module _ (P : Prometheus) (laws : ValueLaws P) where
  abbrev active : Text → P.Registry → ℤ
  active t r = laws.value (name_of connections_active) (t ∷ []) r

  one-active :
      (t : Text) (e : Recording P.Float) (r : P.Registry)
      → active t (record_one P e r) ≡ (
          if is_connection t e
          then active t r +ℤ pos 1
          else if is_disconnection t e
          then active t r -ℤ pos 1
          else active t r)
  unfolding record_connection record_disconnection record_command record_error set_document_count
      record_bytes text_eq
  one-active t (connection u) r = simp (laws.value-inc) (ground arith)
  one-active t (disconnection u) r = simp (laws.value-dec) (ground arith)
  one-active t (command c d) r = simp (laws.value-inc, laws.value-observe) refl
  one-active t (error c k) r = simp (laws.value-inc) refl
  one-active t (document_count n) r = simp (laws.value-set) refl
  one-active t (bytes received sent) r = simp (laws.value-inc_by) refl

  abbrev total : Text → P.Registry → ℤ
  total t r = laws.value (name_of connections_total) (t ∷ []) r

  one-total :
      (t : Text) (e : Recording P.Float) (r : P.Registry)
      → total t (record_one P e r) ≡ (if is_connection t e then total t r +ℤ pos 1 else total t r)
  unfolding record_connection record_disconnection record_command record_error set_document_count
      record_bytes text_eq
  one-total t (connection u) r = simp (laws.value-inc) (ground arith)
  one-total t (disconnection u) r = simp (laws.value-dec) refl
  one-total t (command c d) r = simp (laws.value-inc, laws.value-observe) refl
  one-total t (error c k) r = simp (laws.value-inc) refl
  one-total t (document_count n) r = simp (laws.value-set) refl
  one-total t (bytes received sent) r = simp (laws.value-inc_by) refl

  abbrev commands : Text → P.Registry → ℤ
  commands c r = laws.value (name_of commands_total) (c ∷ []) r

  one-commands :
      (c : Text) (e : Recording P.Float) (r : P.Registry)
      → commands c (record_one P e r)
        ≡ (if is_command c e then commands c r +ℤ pos 1 else commands c r)
  unfolding record_connection record_disconnection record_command record_error set_document_count
      record_bytes text_eq
  one-commands t (connection u) r = simp (laws.value-inc) refl
  one-commands t (disconnection u) r = simp (laws.value-dec) refl
  one-commands t (command c d) r = simp (laws.value-inc, laws.value-observe) (ground arith)
  one-commands t (error c k) r = simp (laws.value-inc) refl
  one-commands t (document_count n) r = simp (laws.value-set) refl
  one-commands t (bytes received sent) r = simp (laws.value-inc_by) refl

  abbrev errors : Text → Text → P.Registry → ℤ
  errors c k r = laws.value (name_of commands_errors) (c ∷ k ∷ []) r

  one-errors :
      (c k : Text) (e : Recording P.Float) (r : P.Registry)
      → errors c k (record_one P e r)
        ≡ (if is_error c k e then errors c k r +ℤ pos 1 else errors c k r)
  unfolding record_connection record_disconnection record_command record_error set_document_count
      record_bytes text_eq
  one-errors t k (connection u) r = simp (laws.value-inc) refl
  one-errors t k (disconnection u) r = simp (laws.value-dec) refl
  one-errors t k (command c d) r = simp (laws.value-inc, laws.value-observe) refl
  one-errors t k (error c l) r = simp (laws.value-inc) (ground arith)
  one-errors t k (document_count n) r = simp (laws.value-set) refl
  one-errors t k (bytes received sent) r = simp (laws.value-inc_by) refl

  -- A value that one recording counts up where `p` holds is counted up as often as `p` holds.
  counted :
      (v : P.Registry → ℤ) (p : Recording P.Float → Bool)
      → ((e : Recording P.Float) (r : P.Registry)
          → v (record_one P e r) ≡ (if p e then v r +ℤ pos 1 else v r))
      → (es : List (Recording P.Float)) (r : P.Registry)
      → v (record_all P es r) ≡ v r +ℤ pos (occurrences p es)
  counted v p one [] r = omega int_laws
  counted v p one (e ∷ es) r =
      counted v p one es (record_one P e r)
      ∙ rw (one e r) (counted_step (v r) (p e) (occurrences p es))

  active-record_all :
      (t : Text) (es : List (Recording P.Float)) (r : P.Registry)
      → active t (record_all P es r)
        ≡ (active t r +ℤ pos (occurrences (is_connection t) es))
          -ℤ pos (occurrences (is_disconnection t) es)
  active-record_all t [] r = omega int_laws
  active-record_all t (e ∷ es) r =
      active-record_all t es (record_one P e r)
      ∙ rw (one-active t e r) (
          active_step (active t r) (is_connection t e) (is_disconnection t e) (apart t e)
            (occurrences (is_connection t) es) (occurrences (is_disconnection t) es))

  -- If the registry keeps the `ValueLaws`: after any sequence of the `record_` methods the active
  -- connections of a transport are those that have been recorded less the disconnections, and the
  -- connections, the commands of each name and the errors of each command and kind have been counted
  -- up as often as they were recorded.
  pub record_all-value :
      (es : List (Recording P.Float)) (r : P.Registry) (t c k : Text)
      → (active t (record_all P es r)
          ≡ (active t r +ℤ pos (occurrences (is_connection t) es))
            -ℤ pos (occurrences (is_disconnection t) es))
        × (total t (record_all P es r) ≡ total t r +ℤ pos (occurrences (is_connection t) es))
        × (commands c (record_all P es r) ≡ commands c r +ℤ pos (occurrences (is_command c) es))
        × (errors c k (record_all P es r) ≡ errors c k r +ℤ pos (occurrences (is_error c k) es))
  record_all-value es r t c k = (
    active-record_all t es r,
    counted (total t) (is_connection t) (one-total t) es r,
    counted (commands c) (is_command c) (one-commands c) es r,
    counted (errors c k) (is_error c k) (one-errors c k) es r,
  )

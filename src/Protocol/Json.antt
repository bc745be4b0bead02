-- ===== src/Protocol/Json.antt =====
-- `json_to_value` and `parse_value` of crates/ussl-protocol/src/parser.rs. `serde_json` is not part of
-- the repository: its numbers and its reader are the parameter `SerdeJson`, and a value of it is
-- `Json` over those numbers. An object lists its entries in the order in which it is walked.
use ussl.Prelude.{Bool, Option, none, some}
use ussl.Prelude.Int.{ℤ}
use ussl.Text.{Text, codes}
use ussl.Text.Space.{trim}
use ussl.Core.Value.{Value, Items, Fields, integer, float, end, nil, cons, insert_field}
use ussl.Protocol.Command.{Parsed, ok, err, ◌>>=◌, invalid_argument}

mutual
  -- `serde_json::Value`
  pub data Json (N : Type 0) : Type 0 where
    null : Json N
    bool : Bool → Json N
    number : N → Json N
    string : Text → Json N
    array : Elements N → Json N
    object : Members N → Json N

  pub data Elements (N : Type 0) : Type 0 where
    none_left : Elements N
    element : Json N → Elements N → Elements N

  pub data Members (N : Type 0) : Type 0 where
    no_more : Members N
    member : Text → Json N → Members N → Members N

-- What the source calls of `serde_json` to read: the numbers, and `from_str` with the message of its
-- error.
pub record SerdeJson (F : Type 0) : Type 1 where
  pub Number : Type 0
  pub as_i64 : Number → Option ℤ
  pub as_f64 : Number → Option F
  pub from_str : Text → Option (Json Number)
  pub from_str_message : Text → Text

module _ {F : Type 0} (S : SerdeJson F) where
  abbrev pub number_value : Option ℤ → Option F → Parsed (Value F)
  number_value (some i) f = ok (Value.number (integer i))
  number_value none (some f) = ok (Value.number (float f))
  number_value none none = err (invalid_argument (codes "Invalid number"))

  -- `json_to_value`, with the collecting of the values of an array and the loop over the entries of
  -- an object, which inserts into `map`. The first error ends each.
  unfoldable mutual
    pub json_to_value : Json S.Number → Parsed (Value F)
    json_to_value null = ok Value.null
    json_to_value (bool b) = ok (Value.bool b)
    json_to_value (number n) = number_value (S.as_i64 n) (S.as_f64 n)
    json_to_value (string s) = ok (Value.string s)
    json_to_value (array arr) = json_to_items arr >>= (λ values. ok (Value.array values))
    json_to_value (object obj) = json_to_fields obj end >>= (λ map. ok (Value.object map))

    pub json_to_items : Elements S.Number → Parsed (Items F)
    json_to_items none_left = ok nil
    json_to_items (element json arr) =
        let rest = json_to_items arr in
        json_to_value json >>= (λ v. rest >>= λ values. ok (cons v values))

    pub json_to_fields : Members S.Number → Fields F → Parsed (Fields F)
    json_to_fields no_more map = ok map
    json_to_fields (member k json obj) map =
        json_to_value json >>= (λ v. json_to_fields obj (insert_field k v map))

  abbrev pub value_of : Text → Option (Json S.Number) → Parsed (Value F)
  value_of s (some json) = json_to_value json
  value_of s none = ok (Value.string s)

  -- `parse_value`
  unfoldable pub parse_value : Text → Parsed (Value F)
  parse_value s = value_of (trim s) (S.from_str (trim s))

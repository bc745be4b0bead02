-- ===== src/Core/Strategy.antt =====
-- crates/ussl-core/src/crdt.rs: `Strategy`, its names, and the reading of a name.
use ussl.Prelude.{ℕ, ◌+◌, ◌≡◌, refl, ◌&&◌, ◌||◌, ◌++◌, map, leb, if◌then◌else◌}
use ussl.Text.{Text, codes, text_eq}
use ussl.Core.Error.{Result, ok, err, invalid_path}

pub data Strategy : Type 0 where
  lww crdt_counter crdt_set crdt_map crdt_text : Strategy

-- `Strategy::default()`
abbrev pub default : Strategy
default = lww

-- `Display`
unfoldable pub name_of : Strategy → Text
name_of lww = codes "lww"
name_of crdt_counter = codes "crdt-counter"
name_of crdt_set = codes "crdt-set"
name_of crdt_map = codes "crdt-map"
name_of crdt_text = codes "crdt-text"

-- `to_lowercase` of one byte. A byte of another letter stays what it is here: no such letter has a
-- lower case that stands in the names below.
unfoldable pub to_lower : ℕ → ℕ
to_lower c = if leb b'A' c && leb c b'Z' then c + 32 else c

-- `FromStr`
unfoldable pub parse_strategy : Text → Result Strategy
unfolding text_eq to_lower
parse_strategy s =
    let l = map to_lower s in
    if text_eq l (codes "lww")
    then ok lww
    else if text_eq l (codes "crdt-counter") || text_eq l (codes "counter")
    then ok crdt_counter
    else if text_eq l (codes "crdt-set") || text_eq l (codes "set")
    then ok crdt_set
    else if text_eq l (codes "crdt-map") || text_eq l (codes "map")
    then ok crdt_map
    else if text_eq l (codes "crdt-text") || text_eq l (codes "text")
    then ok crdt_text
    else err (invalid_path (codes "Unknown strategy: " ++ s))

-- Reading the displayed name of a strategy gives the strategy.
pub parse_strategy-name_of : (s : Strategy) → parse_strategy (name_of s) ≡ ok s
unfolding parse_strategy name_of
parse_strategy-name_of lww = refl
parse_strategy-name_of crdt_counter = refl
parse_strategy-name_of crdt_set = refl
parse_strategy-name_of crdt_map = refl
parse_strategy-name_of crdt_text = refl

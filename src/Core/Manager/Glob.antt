-- ===== src/Core/Manager/Glob.antt =====
-- crates/ussl-core/src/manager.rs: `matches_pattern`, which is written a second time in
-- crates/ussl-storage/src/memory.rs.
pub mod Forms
use ussl.Prelude.{Bool, true, [], ◌∷◌, Option, none, some, ◌==◌, if◌then◌else◌}
use ussl.Text.{Text, codes, text_eq, starts_with, ends_with}

-- `pattern.strip_suffix('*')`
unfoldable pub strip_star_suffix : Text → Option Text
strip_star_suffix [] = none
strip_star_suffix (c ∷ []) = if c == b'*' then some [] else none
strip_star_suffix (c ∷ d ∷ s) = elim (strip_star_suffix (d ∷ s)) [
  | none ↦ none
  | some t ↦ some (c ∷ t)
]

-- `pattern.strip_prefix('*')`
unfoldable pub strip_star_prefix : Text → Option Text
strip_star_prefix [] = none
strip_star_prefix (c ∷ s) = if c == b'*' then some s else none

abbrev match_suffix : Text → Text → Option Text → Bool
match_suffix key pattern (some suffix) = ends_with suffix key
match_suffix key pattern none = text_eq key pattern

abbrev match_prefix : Text → Text → Option Text → Bool
match_prefix key pattern (some prefix) = starts_with prefix key
match_prefix key pattern none = match_suffix key pattern (strip_star_prefix pattern)

-- `DocumentManager::matches_pattern`
unfoldable pub matches_pattern : Text → Text → Bool
matches_pattern key pattern =
    if text_eq pattern (codes "*")
    then true
    else match_prefix key pattern (strip_star_suffix pattern)

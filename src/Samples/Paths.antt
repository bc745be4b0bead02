-- ===== src/Samples/Paths.antt =====
-- Paths and values.
use Prim.Native.Nat.{ℕ}
use ussl.Prelude.{◌≡◌, ◌≢◌, ◌↔◌, refl, true, List, [], ◌∷◌, none, some}
use ussl.Text.{Text, codes, text_eq, text_eq_iff}
use ussl.Core.Path.{PathSegment, key, index, segments, collect, run_collect}
use ussl.Core.Path.Progress.{is_closed}
use ussl.Core.Path.Closed.{segments_iff, collect_open}
use ussl.Core.Value.{Value, string, object, field, end, get_path, set_path}
use ussl.Core.Value.RoundTrip.{get_path-set_path}
use ussl.Core.Value.Frame.{get_path-set_path_apart}

abbrev Plain : Type 0
Plain = Value ℕ

abbrev user_name : Text
user_name = codes "users[0].name"

abbrev user_age : Text
user_age = codes "users[0].age"

name_segments : segments user_name ≡ some (key (codes "users") ∷ index 0 ∷ key (codes "name") ∷ [])
unfolding segments collect run_collect
name_segments = refl

age_segments : segments user_age ≡ some (key (codes "users") ∷ index 0 ∷ key (codes "age") ∷ [])
unfolding segments collect run_collect
age_segments = refl

abbrev tree : Plain
tree = object (field (codes "users") (string (codes "none")) end)

abbrev alice : Plain
alice = string (codes "Alice")

get_path-set_path_example :
    (new : Plain) × (set_path user_name alice tree ≡ some new)
    × (get_path user_name new ≡ some (some alice))
get_path-set_path_example =
    get_path-set_path user_name (key (codes "users")) (index 0 ∷ key (codes "name") ∷ []) alice tree
      name_segments

name_ne_age : codes "name" ≢ codes "age"
unfolding text_eq
name_ne_age e = cc ((text_eq_iff (codes "name") (codes "age")).1 e)

get_path-set_path_apart_example :
    (new : Plain) × (set_path user_name alice tree ≡ some new)
    × (get_path user_age new ≡ get_path user_age tree)
get_path-set_path_apart_example =
    get_path-set_path_apart user_name user_age (key (codes "users") ∷ index 0 ∷ []) (codes "name")
      (codes "age") [] [] alice tree name_segments age_segments name_ne_age

segments_iff_example :
    (is_closed (codes "a[0]") ≡ true)
    ↔ ((ps : List PathSegment) × (segments (codes "a[0]") ≡ some ps))
segments_iff_example = segments_iff (codes "a[0]")

collect_open_example : collect 1000 (codes "a[") ≡ none
collect_open_example = collect_open 1000 (codes "a[") (unfold is_closed in refl)

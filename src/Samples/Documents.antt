-- ===== src/Samples/Documents.antt =====
-- Documents.
use ussl.Prelude.{ℕ, ◌≡◌, ◌↔◌, refl, [], ◌∷◌, none, some}
use ussl.Prelude.Int.{pos}
use ussl.Text.{Text, codes, text_eq}
use ussl.Core.Error.{ok, err, invalid_path}
use ussl.Core.Path.{key, segments, collect, run_collect}
use ussl.Core.Strategy.{lww, crdt_text}
use ussl.Core.Value.{
  string, number, integer, object, field, end, child, get_field, get_path, get_from,
}
use ussl.Core.Document.Id.{IsDocumentId, new_id, new_id_iff, is_id_byte, is_alphanumeric}
use ussl.Core.Document.State.{
  Document, set, get, push, increment, delete, push_tree, read_at, ensure_array,
}
use ussl.Core.Document.Sync.{apply_update, compact}
use ussl.Core.Document.Writes.{Effect, writes-Effect}
use ussl.Core.Document.Compaction.{Compacted, get-compact}
use ussl.Samples.Library.{plain, plain_text}

abbrev pub user : Text
user = codes "user:123"

abbrev pub profile : Document plain ℕ
profile = record {
  meta = record {
    id = user;
    strategy = lww;
    created_at = 100;
    updated_at = 100;
    version = 1;
    ttl = some 50;
  };
  ydoc = codes "";
  lww_data = object (field (codes "views") (number (integer (pos 41))) end);
  update_count = 0;
  compaction_count = 0;
}

abbrev pub note : Document plain ℕ
note = record {
  meta = record {
    id = codes "note";
    strategy = crdt_text;
    created_at = 100;
    updated_at = 100;
    version = 1;
    ttl = none;
  };
  ydoc = codes "draft";
  lww_data = object end;
  update_count = 1200;
  compaction_count = 0;
}

views_path : segments (codes "views") ≡ some (key (codes "views") ∷ [])
unfolding segments collect run_collect
views_path = refl

tags_path : segments (codes "tags") ≡ some (key (codes "tags") ∷ [])
unfolding segments collect run_collect
tags_path = refl

writes-Effect_example :
    Effect plain 7 profile (set plain 7 (codes "tags") (string (codes "a")) profile)
    × Effect plain 7 profile (delete plain 7 none profile)
    × Effect plain 7 profile (push plain 7 (codes "tags") (string (codes "a")) profile)
    × Effect plain 7 profile (increment plain 7 (codes "tags") (pos 1) profile)
    × Effect plain 7 profile (apply_update plain 7 [] profile)
writes-Effect_example =
    writes-Effect plain 7 (codes "tags") [] none (string (codes "a")) (pos 1) profile

get-compact_example :
    Compacted plain note (compact plain note)
    × (get plain none (compact plain note).1 ≡ get plain none note)
get-compact_example = get-compact plain none note plain_text

pub user-IsDocumentId : IsDocumentId user
unfolding new_id is_id_byte is_alphanumeric
user-IsDocumentId = ((new_id_iff user user).0 refl).0

new_id_iff_example : (new_id user ≡ ok user) ↔ (IsDocumentId user × (user ≡ user))
new_id_iff_example = new_id_iff user user

-- a push to something that is no array fails and changes nothing
push_refused :
    push plain 7 (codes "views") (string (codes "a")) profile
    ≡ (err (invalid_path (codes "views is not an array")), profile)
unfolding push push_tree read_at get_path get_from run_collect child get_field text_eq ensure_array
push_refused = refl

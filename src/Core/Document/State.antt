-- ===== src/Core/Document/State.antt =====
-- crates/ussl-core/src/document.rs: the document and its operations. `yrs` is not part of the
-- repository: its documents and the calls that the source makes are the parameter `Yrs`. The locks
-- are not modelled: an operation is one step.
use ussl.Prelude.{ℕ, ◌*◌, ◌%◌, ◌^◌, ◌++◌, Option, none, some, length}
use ussl.Prelude.Int.{ℤ, pos}
use ussl.Prelude.Word.{add64, add_i64}
use ussl.Text.{Text, codes}
use ussl.Core.Error.{◌>>=◌, Result, ok, err, hang, invalid_path, crdt}
use ussl.Core.Strategy.{Strategy, lww, crdt_counter, crdt_set, crdt_map, crdt_text}
use ussl.Core.Value.{
  Value, null, number, string, array, object, integer, Items, nil, cons, end, as_i64, get_path,
  set_path,
}
use ussl.Core.Document.Meta.{DocumentMeta, new_meta, touch}

-- A document of `yrs` with the text `content`, as the calls see it. A decoded update is applied, or
-- the decoder's message comes back.
pub record Yrs : Type 1 where
  pub Doc : Type 0
  pub new_doc : Doc
  pub get_string : Doc → Text
  pub remove_range : ℕ → ℕ → Doc → Doc
  pub insert : ℕ → Text → Doc → Doc
  pub encode_state_as_update : Doc → Text
  pub Update : Type 0
  pub decode : Text → Option Update
  pub decode_message : Text → Text
  pub apply_update : Update → Doc → Doc

abbrev pub compaction_threshold : ℕ
compaction_threshold = 1000

abbrev pub compaction_size_threshold : ℕ
compaction_size_threshold = 1024 * 1024

pub record Document (Y : Yrs) (F : Type 0) : Type 0 where
  pub meta : DocumentMeta
  pub ydoc : Y.Doc
  pub lww_data : Value F
  pub update_count : ℕ
  pub compaction_count : ℕ

module _ {F : Type 0} where
  -- `arr.push(value)`
  unfoldable pub push_item : Value F → Items F → Items F
  push_item v nil = cons v nil
  push_item v (cons x xs) = cons x (push_item v xs)

  -- `data.get_path(path)` with its option
  unfoldable pub read_at : Text → Value F → Result (Option (Value F))
  read_at path tree = elim (get_path path tree) [ none ↦ hang | some v ↦ ok v ]

  unfoldable pub write_at : Text → Value F → Value F → Result (Value F)
  write_at path value tree = elim (set_path path value tree) [ none ↦ hang | some v ↦ ok v ]

  -- `push` finds an array, or makes an empty one where nothing is.
  unfoldable pub ensure_array : Text → Option (Value F) → Value F → Result (Value F)
  ensure_array path none tree = write_at path (array nil) tree
  ensure_array path (some (array xs)) tree = ok tree
  ensure_array path (some v) tree = err (invalid_path (path ++ codes " is not an array"))

  unfoldable pub append_to : Text → Value F → Option (Value F) → Value F → Result (Value F)
  append_to path value (some (array xs)) tree = write_at path (array (push_item value xs)) tree
  append_to path value v tree = ok tree

  unfoldable pub push_tree : Text → Value F → Value F → Result (Value F)
  push_tree path value tree = do
    there ← read_at path tree
    tree' ← ensure_array path there tree
    arr ← read_at path tree'
    append_to path value arr tree'

  -- `get_path(path).and_then(|v| v.as_i64()).unwrap_or(0)`
  abbrev pub counter_of : Option (Value F) → ℤ
  counter_of none = pos 0
  counter_of (some v) = elim (as_i64 v) [ none ↦ pos 0 | some n ↦ n ]

  unfoldable pub increment_tree : Text → ℤ → Value F → Result (ℤ × Value F)
  increment_tree path delta tree = do
    current ← read_at path tree
    let new_value = add_i64 (counter_of current) delta
    tree' ← write_at path (number (integer new_value)) tree
    ok (new_value, tree')

module _ (Y : Yrs) {F : Type 0} where
  -- `Document::new` and `Document::with_ttl`
  unfoldable pub new_document : ℕ → Text → Strategy → Option ℕ → Document Y F
  new_document now id strategy ttl = record {
    meta = new_meta now id strategy ttl;
    ydoc = Y.new_doc;
    lww_data = object end;
    update_count = 0;
    compaction_count = 0;
  }

  -- What an operation on the tree comes to: with its success the tree is written and the version
  -- updated.
  abbrev pub commit_tree : ℕ → Document Y F → Result (Value F) → Result (Unit {0}) × Document Y F
  commit_tree now d (ok tree) = (ok tt, record d { lww_data = tree; meta = touch now d.meta })
  commit_tree now d (err e) = (err e, d)
  commit_tree now d hang = (hang, d)

  abbrev pub get_tree : Text → Document Y F → Result (Value F)
  get_tree path d =
      read_at path d.lww_data >>= (λ v. elim v [ none ↦ err (invalid_path path) | some w ↦ ok w ])

  abbrev pub get_lww : Option Text → Document Y F → Result (Value F)
  get_lww none d = ok d.lww_data
  get_lww (some path) d = get_tree path d

  abbrev pub get_by : Strategy → Option Text → Document Y F → Result (Value F)
  get_by lww path d = get_lww path d
  get_by crdt_map path d = get_lww path d
  get_by crdt_text path d = ok (string (Y.get_string d.ydoc))
  get_by crdt_counter path d = ok d.lww_data
  get_by crdt_set path d = ok d.lww_data

  -- `Document::get`
  unfoldable pub get : Option Text → Document Y F → Result (Value F)
  get path d = get_by d.meta.strategy path d

  -- `increment_update_count` and `update_version`
  abbrev pub count_update : ℕ → Document Y F → Y.Doc → Document Y F
  count_update now d doc = record d {
    ydoc = doc;
    update_count = add64 d.update_count 1;
    meta = touch now d.meta;
  }

  -- The length of the old text is cast to 32 bits.
  abbrev pub set_text : ℕ → Value F → Document Y F → Result (Unit {0}) × Document Y F
  set_text now (string t) d =
      let current_len = length (Y.get_string d.ydoc) % 2 ^ 32 in
      (ok tt, count_update now d (Y.insert 0 t (Y.remove_range 0 current_len d.ydoc)))
  set_text now v d = (err (crdt (codes "CrdtText strategy requires string values")), d)

  abbrev pub set_by :
      Strategy → ℕ → Text → Value F → Document Y F → Result (Unit {0}) × Document Y F
  set_by crdt_text now path value d = set_text now value d
  set_by s now path value d = commit_tree now d (write_at path value d.lww_data)

  -- `Document::set`
  unfoldable pub set : ℕ → Text → Value F → Document Y F → Result (Unit {0}) × Document Y F
  set now path value d = set_by d.meta.strategy now path value d

  -- `Document::delete`
  unfoldable pub delete : ℕ → Option Text → Document Y F → Result (Unit {0}) × Document Y F
  delete now (some path) d = commit_tree now d (write_at path null d.lww_data)
  delete now none d = commit_tree now d (ok (object end))

  -- `Document::push`
  unfoldable pub push : ℕ → Text → Value F → Document Y F → Result (Unit {0}) × Document Y F
  push now path value d = commit_tree now d (push_tree path value d.lww_data)

  abbrev pub commit_count : ℕ → Document Y F → Result (ℤ × Value F) → Result ℤ × Document Y F
  commit_count now d (ok (n, tree)) = (ok n, record d { lww_data = tree; meta = touch now d.meta })
  commit_count now d (err e) = (err e, d)
  commit_count now d hang = (hang, d)

  -- `Document::increment`
  unfoldable pub increment : ℕ → Text → ℤ → Document Y F → Result ℤ × Document Y F
  increment now path delta d = commit_count now d (increment_tree path delta d.lww_data)

  -- `Document::set_ttl`
  unfoldable pub set_ttl : Option ℕ → Document Y F → Document Y F
  set_ttl ttl d = record d { meta = record (d.meta) { ttl = ttl } }

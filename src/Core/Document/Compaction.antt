-- ===== src/Core/Document/Compaction.antt =====
-- crates/ussl-core/src/document.rs: `compact` changes no value that `get` can return.
use ussl.Prelude.{ℕ, ◌≤◌, ◌≡◌, refl, ◌∙◌, ap, false, Option, none, some, arith, append-nil, length}
use ussl.Prelude.Word.{add64}
use ussl.Text.{Text}
use ussl.Core.Error.{Result, ok, err, hang}
use ussl.Core.Strategy.{Strategy, lww, crdt_map, crdt_text}
use ussl.Core.Value.{string}
use ussl.Core.Document.State.{Yrs, Document, get_by, get_lww, get}
use ussl.Core.Document.Meta.{DocumentMeta}
use ussl.Core.Document.Sync.{fresh_doc, replace_doc, compact, should_compact}
use ussl.Core.Document.Reads.{TextLaws}

module _ (Y : Yrs) {F : Type 0} where
  -- What a compaction comes to: the counters are reset and counted, at most the old size is saved,
  -- and the metadata and the tree stay; or nothing has changed.
  abbrev pub Compacted : Document Y F → Result ℕ × Document Y F → Type 0
  Compacted d (ok saved, d') =
      (d'.meta ≡ d.meta)
      × (d'.lww_data ≡ d.lww_data)
      × (d'.update_count ≡ 0)
      × (d'.compaction_count ≡ add64 d.compaction_count 1)
      × (saved ≤ length (Y.encode_state_as_update d.ydoc))
      × (should_compact Y d' ≡ false)
  Compacted d (err e, d') = d' ≡ d
  Compacted d (hang, d') = d' ≡ d

  replace_doc-Compacted : (r : Result Y.Doc) (d : Document Y F) → Compacted d (replace_doc Y r d)
  unfolding should_compact
  replace_doc-Compacted (ok doc) d = (refl, refl, refl, refl, ground arith, refl)
  replace_doc-Compacted (err e) d = refl
  replace_doc-Compacted hang d = refl

  replace_doc-meta : (r : Result Y.Doc) (d : Document Y F) → (replace_doc Y r d).1.meta ≡ d.meta
  replace_doc-meta (ok doc) d = refl
  replace_doc-meta (err e) d = refl
  replace_doc-meta hang d = refl

  replace_doc-tree :
      (r : Result Y.Doc) (d : Document Y F) → (replace_doc Y r d).1.lww_data ≡ d.lww_data
  replace_doc-tree (ok doc) d = refl
  replace_doc-tree (err e) d = refl
  replace_doc-tree hang d = refl

  get_lww-replace_doc :
      (r : Result Y.Doc) (path : Option Text) (d : Document Y F)
      → get_lww Y path (replace_doc Y r d).1 ≡ get_lww Y path d
  get_lww-replace_doc r none d = ap ok (replace_doc-tree r d)
  get_lww-replace_doc r (some p) d = rw (replace_doc-tree r d)

  get_by-replace_doc :
      (s : Strategy) (path : Option Text) (d : Document Y F)
      → TextLaws Y
      → get_by Y s path (replace_doc Y (fresh_doc Y s d.ydoc) d).1 ≡ get_by Y s path d
  get_by-replace_doc crdt_text path d laws =
      ap (λ x. ok (string x))
        (laws.get_string-insert (Y.get_string d.ydoc) Y.new_doc
          ∙ rw (laws.get_string-new_doc, append-nil))
  get_by-replace_doc lww path d laws = get_lww-replace_doc (fresh_doc Y lww d.ydoc) path d
  get_by-replace_doc crdt_map path d laws = get_lww-replace_doc (fresh_doc Y crdt_map d.ydoc) path d
  get_by-replace_doc s path d laws = ap ok (replace_doc-tree (fresh_doc Y s d.ydoc) d)

  pub compact-Compacted : (d : Document Y F) → Compacted d (compact Y d)
  unfolding compact
  compact-Compacted d = replace_doc-Compacted (fresh_doc Y d.meta.strategy d.ydoc) d

  -- A compaction, whether it succeeds or fails, leaves what `get` returns at every path, if `yrs` keeps
  -- the `TextLaws`. With its success the counters are reset and counted, at most the old size is
  -- reported as saved, no compaction is due, and the metadata and the tree stay; without it nothing
  -- has changed.
  pub get-compact :
      (path : Option Text) (d : Document Y F)
      → TextLaws Y
      → Compacted d (compact Y d) × (get Y path (compact Y d).1 ≡ get Y path d)
  unfolding get compact
  get-compact path d laws = (
    compact-Compacted d,
    ap (λ (m : DocumentMeta). get_by Y m.strategy path (compact Y d).1)
          (replace_doc-meta (fresh_doc Y d.meta.strategy d.ydoc) d)
        ∙ get_by-replace_doc d.meta.strategy path d laws,
  )

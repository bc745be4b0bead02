-- ===== src/Core/Document/Reads.antt =====
-- crates/ussl-core/src/document.rs: what an operation wrote is what `get` then reads.
use ussl.Prelude.{
  ℕ, ◌≡◌, ◌^◌, ◌∙◌, ap, ◌%◌, drop-length, ◌<◌, ◌⊎◌, inl, inr, refl, List, [], ◌∷◌, ◌++◌, Option,
  none, some, arith, length, drop, ◌≤◌, append-nil,
}
use ussl.Prelude.Int.{ℤ, ◌+ℤ◌}
use ussl.Prelude.Word.{add_i64, IsI64, add_i64-eq_add}
use ussl.Text.{Text}
use ussl.Core.Error.{ok}
use ussl.Core.Path.{PathSegment, segments}
use ussl.Core.Strategy.{Strategy, lww, crdt_counter, crdt_set, crdt_map, crdt_text}
use ussl.Core.Value.{Value, Items, nil, array, string, number, integer}
use ussl.Core.Value.Access.{walk, get_path-walk}
use ussl.Core.Value.RoundTrip.{get_path-set_path}
use ussl.Core.Document.Meta.{touch}
use ussl.Core.Document.State.{
  Yrs, Document, push_item, read_at, write_at, ensure_array, append_to, push_tree, counter_of,
  increment_tree, set_by, set_text, count_update, get_by, get, set, push, increment,
}

-- What `yrs` documents of an insertion at the front and of a removal of what the text holds.
pub record TextLaws (Y : Yrs) : Type 0 where
  pub get_string-insert :
      (t : Text) (d : Y.Doc) → Y.get_string (Y.insert 0 t d) ≡ t ++ Y.get_string d
  pub get_string-remove_range :
      (n : ℕ) (d : Y.Doc)
      → n ≤ length (Y.get_string d)
      → Y.get_string (Y.remove_range 0 n d) ≡ drop n (Y.get_string d)
  pub get_string-new_doc : Y.get_string Y.new_doc ≡ []

-- The strategies under which `get` reads a path.
abbrev pub IsMap : Strategy → Type 0
IsMap s = (s ≡ lww) ⊎ (s ≡ crdt_map)

module _ {F : Type 0} where
  read_at-write_at :
      (path : Text) (p : PathSegment) (ps : List PathSegment) (value tree : Value F)
      → segments path ≡ some (p ∷ ps)
      → (new : Value F) × (write_at path value tree ≡ ok new) × (read_at path new ≡ ok (some value))
  unfolding read_at write_at
  read_at-write_at path p ps value tree h =
      let (new, w, r) = get_path-set_path path p ps value tree h in
      (new, rw (w, write_at), rw (r, read_at))

  read_at-walk :
      (path : Text) (ps : List PathSegment) (tree : Value F)
      → segments path ≡ some ps
      → read_at path tree ≡ ok (walk ps tree)
  unfolding read_at
  read_at-walk path ps tree h = rw (get_path-walk path ps tree h, read_at)

  -- the array that `push` appends to
  abbrev pub Holds : Option (Value F) → Items F → Type 0
  Holds o xs = (o ≡ some (array xs)) ⊎ ((o ≡ none) × (xs ≡ nil))

  push_tree-reads :
      (path : Text) (p : PathSegment) (ps : List PathSegment) (value tree : Value F) (xs : Items F)
      → segments path ≡ some (p ∷ ps)
      → Holds (walk (p ∷ ps) tree) xs
      → (new : Value F) × (push_tree path value tree ≡ ok new)
        × (read_at path new ≡ ok (some (array (push_item value xs))))
  unfolding push_tree ensure_array append_to
  push_tree-reads path p ps value tree xs h (inl e) =
      let (new, w, r) = read_at-write_at path p ps (array (push_item value xs)) tree h in
      (new, rw (read_at-walk path (p ∷ ps) tree h, e, read_at-walk path (p ∷ ps) tree h, e) w, r)
  push_tree-reads path p ps value tree xs h (inr e) =
      let (mid, w, r) = read_at-write_at path p ps (array nil) tree h in
      let (new, w', r') = read_at-write_at path p ps (array (push_item value nil)) mid h in
      (new, rw (read_at-walk path (p ∷ ps) tree h, e.0, w, r) w', rw (e.1) r')

  increment_tree-reads :
      (path : Text) (p : PathSegment) (ps : List PathSegment) (delta : ℤ) (tree : Value F)
      → segments path ≡ some (p ∷ ps)
      → let n = add_i64 (counter_of (walk (p ∷ ps) tree)) delta in
        (new : Value F) × (increment_tree path delta tree ≡ ok (n, new))
        × (read_at path new ≡ ok (some (number (integer n))))
  unfolding increment_tree
  increment_tree-reads path p ps delta tree h =
      let (new, w, r) = read_at-write_at path p ps _ tree h in
      (new, rw (read_at-walk path (p ∷ ps) tree h, w), r)

module _ (Y : Yrs) where
  -- what `set` makes of the old text
  set_text-get_string :
      (t : Text) (doc : Y.Doc)
      → TextLaws Y
      → length (Y.get_string doc) < 2 ^ 32
      → Y.get_string (Y.insert 0 t (Y.remove_range 0 (length (Y.get_string doc) % 2 ^ 32) doc)) ≡ t
  set_text-get_string t doc laws h =
      let small : length (Y.get_string doc) % 2 ^ 32 ≡ length (Y.get_string doc) = omega arith in
      laws.get_string-insert t _
      ∙ rw (
        small,
        laws.get_string-remove_range (length (Y.get_string doc)) doc (omega arith),
        drop-length,
        append-nil,
      )

module _ (Y : Yrs) {F : Type 0} where
  abbrev written : ℕ → Value F → Document Y F → Document Y F
  written now new d = record d { lww_data = new; meta = touch now d.meta }

  set_by-map :
      (s : Strategy) (now : ℕ) (path : Text) (value new : Value F) (d : Document Y F)
      → IsMap s
      → write_at path value d.lww_data ≡ ok new
      → set_by Y s now path value d ≡ (ok tt, written now new d)
  set_by-map lww now path value new d m w = rw w
  set_by-map crdt_map now path value new d m w = rw w
  set_by-map crdt_counter now path value new d m w = rw w
  set_by-map crdt_set now path value new d m w = rw w
  set_by-map crdt_text now path value new d (inl e) w = cc
  set_by-map crdt_text now path value new d (inr e) w = cc

  get_by-map :
      (s : Strategy) (path : Text) (value : Value F) (d : Document Y F)
      → IsMap s
      → read_at path d.lww_data ≡ ok (some value)
      → get_by Y s (some path) d ≡ ok value
  get_by-map lww path value d m r = rw r
  get_by-map crdt_map path value d m r = rw r
  get_by-map crdt_counter path value d (inl e) r = cc
  get_by-map crdt_counter path value d (inr e) r = cc
  get_by-map crdt_set path value d (inl e) r = cc
  get_by-map crdt_set path value d (inr e) r = cc
  get_by-map crdt_text path value d (inl e) r = cc
  get_by-map crdt_text path value d (inr e) r = cc

  module _ (now : ℕ) (path : Text) (p : PathSegment) (ps : List PathSegment) (d : Document Y F)
      (map : IsMap d.meta.strategy) (parsed : segments path ≡ some (p ∷ ps)) where
    -- In an LWW or map document a value that is set at a path with a segment is what the path then
    -- reads.
    pub get-set :
        (value : Value F)
        → ((set Y now path value d).0 ≡ ok tt)
          × (get Y (some path) (set Y now path value d).1 ≡ ok value)
    unfolding set get touch
    get-set value =
        let (new, w, r) = read_at-write_at path p ps value d.lww_data parsed in
        let e = set_by-map d.meta.strategy now path value new d map w in
        (rw e, rw e (get_by-map d.meta.strategy path value (written now new d) map r))

    -- In an LWW or map document a push at a path with a segment appends to the array there, which is
    -- made where nothing is.
    get-push :
        (value : Value F) (xs : Items F)
        → Holds (walk (p ∷ ps) d.lww_data) xs
        → ((push Y now path value d).0 ≡ ok tt)
          × (get Y (some path) (push Y now path value d).1 ≡ ok (array (push_item value xs)))
    unfolding push get touch
    get-push value xs h =
        let (new, w, r) = push_tree-reads path p ps value d.lww_data xs parsed h in
        (rw w, rw w (get_by-map d.meta.strategy path _ (written now new d) map r))

    -- In an LWW or map document an increment at a path with a segment returns the integer there, 0
    -- where there is none, plus the delta, and stores it, as long as the sum fits 64 bits.
    get-increment :
        (delta : ℤ)
        → IsI64 (counter_of (walk (p ∷ ps) d.lww_data) +ℤ delta)
        → let n = counter_of (walk (p ∷ ps) d.lww_data) +ℤ delta in
          ((increment Y now path delta d).0 ≡ ok n)
          × (get Y (some path) (increment Y now path delta d).1 ≡ ok (number (integer n)))
    unfolding increment get touch
    get-increment delta fits =
        let (new, w, r) = increment_tree-reads path p ps delta d.lww_data parsed in
        let sum = add_i64-eq_add (counter_of (walk (p ∷ ps) d.lww_data)) delta fits in
        (
          rw (w, sum),
          rw w (get_by-map d.meta.strategy path _ (written now new d) map (rw sum at r)),
        )

  set_by-text :
      (s : Strategy) (now : ℕ) (path t : Text) (d : Document Y F)
      → s ≡ crdt_text
      → set_by Y s now path (string t) d ≡ set_text Y now (string t) d
  set_by-text crdt_text now path t d e = refl
  set_by-text lww now path t d e = cc
  set_by-text crdt_counter now path t d e = cc
  set_by-text crdt_set now path t d e = cc
  set_by-text crdt_map now path t d e = cc

  pub get_by-text :
      (s : Strategy) (path : Option Text) (d : Document Y F)
      → s ≡ crdt_text
      → get_by Y s path d ≡ ok (string (Y.get_string d.ydoc))
  get_by-text crdt_text path d e = refl
  get_by-text lww path d e = cc
  get_by-text crdt_counter path d e = cc
  get_by-text crdt_set path d e = cc
  get_by-text crdt_map path d e = cc

  -- In a text document a string set, whatever the path, is what is then read, as long as the old text
  -- is shorter than 4 GiB and `yrs` keeps the `TextLaws`.
  get-set_text :
      (now : ℕ) (path t : Text) (other : Option Text) (d : Document Y F)
      → TextLaws Y
      → d.meta.strategy ≡ crdt_text
      → length (Y.get_string d.ydoc) < 2 ^ 32
      → ((set Y now path (string t) d).0 ≡ ok tt)
        × (get Y other (set Y now path (string t) d).1 ≡ ok (string t))
  unfolding set get touch
  get-set_text now path t other d laws e h =
      let s = set_by-text d.meta.strategy now path t d e in
      let doc = Y.insert 0 t (Y.remove_range 0 (length (Y.get_string d.ydoc) % 2 ^ 32) d.ydoc) in
      (
        rw s,
        rw s (
            get_by-text d.meta.strategy other (count_update Y now d doc) e
            ∙ ap (λ x. ok (string x)) (set_text-get_string Y t d.ydoc laws h)),
      )

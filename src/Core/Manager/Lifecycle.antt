-- ===== src/Core/Manager/Lifecycle.antt =====
-- crates/ussl-core/src/manager.rs: what `get` finds after a document was made or deleted.
use ussl.Prelude.{ℕ, ◌≡◌, not, ◌&&◌, Option, none, arith, if◌then◌else◌}
use ussl.Text.{Text, text_eq, text_eq_iff}
use ussl.TextMap.{contains_key, lookup-insert, lookup-remove}
use ussl.Core.Error.{Result, ok, err, hang, ◌>>=◌, document_exists, document_not_found}
use ussl.Core.Strategy.{Strategy}
use ussl.Core.Document.State.{Yrs, Document, new_document}
use ussl.Core.Manager.State.{DocumentManager, create, get, get_or_create, delete}

module _ (Y : Yrs) {F J : Type 0} where
  -- A creation succeeds exactly when the identifier is free; then `get` finds the new document there.
  -- It finds what it found before at every other identifier, and everywhere if the creation failed.
  get-create :
      (now : ℕ) (id j : Text) (s : Strategy) (ttl : Option ℕ) (m : DocumentManager Y F J)
      → let fresh = new_document Y now id s ttl in
        let taken = contains_key id m.documents in
        ((create Y now id s ttl m).0 ≡ (if taken then err (document_exists id) else ok fresh))
        × (get Y j (create Y now id s ttl m).1
            ≡ (if text_eq id j && not taken then ok fresh else get Y j m))
  unfolding create get
  get-create now id j s ttl m =
      let fresh = new_document Y now id s ttl in
      let l = lookup-insert id j fresh m.documents in (ground arith, ground (arith, l))

  -- A deletion succeeds exactly when `get` finds the document, and afterwards `get` does not find it;
  -- it finds what it found before at every other identifier.
  get-delete :
      (id j : Text) (m : DocumentManager Y F J)
      → ((delete Y id m).0 ≡ (get Y id m >>= λ d. ok tt))
        × (get Y j (delete Y id m).1
            ≡ (if text_eq id j then err (document_not_found j) else get Y j m))
  unfolding delete get
  get-delete id j m =
      let l = lookup-remove id j m.documents in (ground arith, ground (arith, l, text_eq_iff id j))

  -- `get_or_create` returns the document that is there, or a new one that `get` finds from then on.
  pub get-get_or_create :
      (now : ℕ) (id j : Text) (s : Strategy) (m : DocumentManager Y F J)
      → let r = get_or_create Y now id s m in
        (ok r.0 ≡ (elim (get Y id m) as (λ x. Result (Document Y F)) [
          | ok d ↦ ok d
          | err e ↦ ok (new_document Y now id s none)
          | hang ↦ hang
        ]))
        × (get Y j r.1 ≡ (if text_eq id j then ok r.0 else get Y j m))
  unfolding get_or_create get
  get-get_or_create now id j s m =
      let l = lookup-insert id j (new_document Y now id s none) m.documents in
      (ground arith, ground (arith, l, text_eq_iff id j))

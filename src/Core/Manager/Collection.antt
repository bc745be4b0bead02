-- ===== src/Core/Manager/Collection.antt =====
-- crates/ussl-core/src/manager.rs: `gc` removes the expired documents and nothing else.
use ussl.Prelude.{ℕ, ◌≡◌, refl, ap, ◌∙◌, Bool, false, [], none, arith, length, if◌then◌else◌}
use ussl.Text.{Text}
use ussl.TextMap.{
  lookup, keys_where, satisfies, IsMap, lookup-remove_all, holds_key-keys_where, keys_where-nil,
  remove_all-IsMap,
}
use ussl.Core.Error.{ok, err, ◌>>=◌, document_not_found}
use ussl.Core.Document.State.{Yrs}
use ussl.Core.Manager.State.{DocumentManager, doc_expired, get, get_presence, gc, expired_count}

module _ {Y : Yrs} {F J : Type 0} where
  abbrev pub expired_at : ℕ → DocumentManager Y F J → Text → Bool
  expired_at now m j = satisfies (doc_expired now) (lookup j m.documents)

module _ (Y : Yrs) {F J : Type 0} (now : ℕ) (m : DocumentManager Y F J)
    (unique : IsMap m.documents) where
  lookup-gc :
      (j : Text)
      → lookup j (gc Y now m).1.documents
        ≡ (if expired_at now m j then none else lookup j m.documents)
  unfolding gc
  lookup-gc j =
      lookup-remove_all (keys_where (doc_expired now) m.documents) j m.documents
      ∙ rw (holds_key-keys_where (doc_expired now) j m.documents unique)

  none_left : (j : Text) → satisfies (doc_expired now) (lookup j (gc Y now m).1.documents) ≡ false
  none_left j = rw (lookup-gc j) (ground arith)

  -- In a manager in which no id has two documents: after a collection `get` finds every document that had not expired, as it was, and no other; the
  -- call returns how many had expired, and none that has is left.
  pub get-gc :
      (j : Text)
      → (get Y j (gc Y now m).1
          ≡ (get Y j m >>= λ d. if doc_expired now d then err (document_not_found j) else ok d))
        × ((gc Y now m).0 ≡ expired_count Y now m)
        × (expired_count Y now (gc Y now m).1 ≡ 0)
  unfolding get expired_count
  get-gc j = (
    rw (lookup-gc j) (ground arith),
    unfold gc in refl,
    ap length (
        keys_where-nil (doc_expired now) (gc Y now m).1.documents
          (unfold gc in remove_all-IsMap _ m.documents unique) none_left),
  )

  -- In a manager in which no id has two documents the presence of a collected document goes with it;
  -- any other stays.
  get_presence-gc :
      (j : Text)
      → get_presence Y j (gc Y now m).1 ≡ (if expired_at now m j then [] else get_presence Y j m)
  unfolding get_presence gc
  get_presence-gc j =
      rw
        (
          lookup-remove_all (keys_where (doc_expired now) m.documents) j m.presence,
          holds_key-keys_where (doc_expired now) j m.documents unique,
        )
        (ground arith)

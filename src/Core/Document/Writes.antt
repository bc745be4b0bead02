-- ===== src/Core/Document/Writes.antt =====
-- crates/ussl-core/src/document.rs: an operation that fails has changed nothing.
use ussl.Prelude.{ℕ, ◌+◌, ◌%◌, ◌^◌, ◌≡◌, refl, none, some, Option, Option-cases, inl, inr}
use ussl.Prelude.Int.{ℤ}
use ussl.Prelude.Word.{add64}
use ussl.Text.{Text}
use ussl.Core.Error.{Result, ok, err, hang}
use ussl.Core.Strategy.{Strategy, crdt_text}
use ussl.Core.Value.{Value, null, string}
use ussl.Core.Document.Meta.{touch}
use ussl.Core.Document.State.{
  Yrs, Document, write_at, commit_tree, commit_count, push_tree, increment_tree, set_by, set,
  delete, push, increment,
}
use ussl.Core.Document.Sync.{apply_update}

module _ (Y : Yrs) {F : Type 0} where
  -- With its success an operation counts the version up and notes the time; the other metadata stay.
  -- Without success the document is the one before.
  abbrev pub Effect {ℓ} : {A : Type ℓ} → ℕ → Document Y F → Result A × Document Y F → Type 0
  Effect now d (ok a, d') =
      d'.meta ≡ record d.meta { version = (d.meta.version + 1) % 2 ^ 64; updated_at = now }
  Effect now d (err e, d') = d' ≡ d
  Effect now d (hang, d') = d' ≡ d

  commit_tree-Effect :
      (now : ℕ) (d : Document Y F) (r : Result (Value F)) → Effect now d (commit_tree Y now d r)
  unfolding touch add64
  commit_tree-Effect now d (ok v) = refl
  commit_tree-Effect now d (err e) = refl
  commit_tree-Effect now d hang = refl

  commit_count-Effect :
      (now : ℕ) (d : Document Y F) (r : Result (ℤ × Value F))
      → Effect now d (commit_count Y now d r)
  unfolding touch add64
  commit_count-Effect now d (ok (n, v)) = refl
  commit_count-Effect now d (err e) = refl
  commit_count-Effect now d hang = refl

  set_by-Effect :
      (s : Strategy) (now : ℕ) (path : Text) (value : Value F) (d : Document Y F)
      → Effect now d (set_by Y s now path value d)
  unfolding touch add64
  set_by-Effect crdt_text now path (string t) d = refl
  set_by-Effect crdt_text now path _ d = refl
  set_by-Effect _ now path value d = commit_tree-Effect now d (write_at path value d.lww_data)

  pub set-Effect :
      (now : ℕ) (path : Text) (value : Value F) (d : Document Y F)
      → Effect now d (set Y now path value d)
  unfolding set
  set-Effect now path value d = set_by-Effect d.meta.strategy now path value d

  pub push-Effect :
      (now : ℕ) (path : Text) (value : Value F) (d : Document Y F)
      → Effect now d (push Y now path value d)
  unfolding push
  push-Effect now path value d = commit_tree-Effect now d (push_tree path value d.lww_data)

  pub increment-Effect :
      (now : ℕ) (path : Text) (delta : ℤ) (d : Document Y F)
      → Effect now d (increment Y now path delta d)
  unfolding increment
  increment-Effect now path delta d =
      commit_count-Effect now d (increment_tree path delta d.lww_data)

  pub delete-Effect :
      (now : ℕ) (path : Option Text) (d : Document Y F) → Effect now d (delete Y now path d)
  unfolding delete touch add64
  delete-Effect now none d = refl
  delete-Effect now (some path) d = commit_tree-Effect now d (write_at path null d.lww_data)

  pub apply_update-Effect :
      (now : ℕ) (update : Text) (d : Document Y F) → Effect now d (apply_update Y now update d)
  unfolding apply_update touch add64
  apply_update-Effect now update d = elim (Option-cases (Y.decode update)) [
    | inl e ↦ rw (e, Effect, apply_update)
    | inr (u, e) ↦ rw (e, Effect, apply_update)
  ]

  -- Every writing operation counts the version up by one (in 64 bits), notes the time and keeps the
  -- other metadata when it succeeds, and leaves the document as it was when it fails or does not
  -- return.
  pub writes-Effect :
      (now : ℕ) (path update : Text) (all : Option Text) (value : Value F) (delta : ℤ)
      (d : Document Y F)
      → Effect now d (set Y now path value d)
        × Effect now d (delete Y now all d)
        × Effect now d (push Y now path value d)
        × Effect now d (increment Y now path delta d)
        × Effect now d (apply_update Y now update d)
  writes-Effect now path update all value delta d = (
    set-Effect now path value d,
    delete-Effect now all d,
    push-Effect now path value d,
    increment-Effect now path delta d,
    apply_update-Effect now update d,
  )

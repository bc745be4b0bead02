-- ===== src/Samples/Managers.antt =====
-- The manager.
use ussl.Prelude.{arith, true, ◌↔◌, ℕ, ◌≡◌, refl, [], ◌∷◌, none, length, if◌then◌else◌}
use ussl.Text.{codes}
use ussl.TextMap.{lookup}
use ussl.Core.Error.{ok, err, ◌>>=◌, document_not_found}
use ussl.Core.Strategy.{lww}
use ussl.Core.Document.State as Doc
use ussl.Core.Document.State.{Document, new_document}
use ussl.Core.Manager.Glob.{matches_pattern}
use ussl.Core.Manager.Glob.Forms.{behind, spell, Matches, matches_pattern_iff}
use ussl.Core.Manager.Backup.{backup, backup_document, restore, restore_document}
use ussl.Core.Manager.State.{
  DocumentManager, new_manager, create, get, gc, expired_count, doc_expired,
}
use ussl.Core.Manager.Invariant as Invariant
use ussl.Core.Manager.Invariant.{IsManager, Reach-IsManager, start, call}
use ussl.Core.Manager.Collection.{get-gc}
use ussl.Core.Manager.Restored.{restored_value, revived, get-restore_document, get-restore-backup}
use ussl.Samples.Library.{plain, plain_sync}
use ussl.Samples.Documents.{user, profile, user-IsDocumentId}

abbrev Manager : Type 0
Manager = DocumentManager plain ℕ ℕ

abbrev served : Manager
served = record {
  documents = (user, profile) ∷ [];
  sent = [];
  receivers = 0;
  presence = (user, record { client_id = codes "c1"; document_id = user; payload = 5 } ∷ []) ∷ [];
}

get-gc_example :
    (get plain user (gc plain 151 served).1 ≡ (
      get plain user served >>= λ d.
      if doc_expired 151 d then err (document_not_found user) else ok d))
    × ((gc plain 151 served).0 ≡ expired_count plain 151 served)
    × (expired_count plain 151 (gc plain 151 served).1 ≡ 0)
unfolding lookup
get-gc_example = get-gc plain 151 served (refl, tt) user

get-restore_document_example :
    (restore_document plain {F = ℕ} 200 (backup_document plain 120 user profile)
      >>= Doc.get plain none)
    ≡ ok (restored_value lww (codes ""))
get-restore_document_example =
    get-restore_document plain plain_sync 120 200 user profile user-IsDocumentId

get-restore-backup_example :
    let r = restore plain 200 (backup plain 120 served) (new_manager plain {F = ℕ} {J = ℕ}) in
    (r.0 ≡ ok (length (backup plain 120 served).documents))
    × (get plain user r.1 ≡ (
        get plain user served >>= λ d.
        if doc_expired 120 d
        then err (document_not_found user)
        else ok (revived plain plain_sync 120 200 user d)))
unfolding lookup
get-restore-backup_example =
    get-restore-backup plain plain_sync 120 200 (omega arith) served user (user-IsDocumentId, tt)
      (refl, tt)

Reach-IsManager_example :
    IsManager plain
      (gc plain {F = ℕ} {J = ℕ} 150 (create plain 9 user lww none (new_manager plain)).1).1
Reach-IsManager_example =
    Reach-IsManager plain _
      (call (call start (Invariant.create 9 user lww none user-IsDocumentId)) (Invariant.gc 150))

matches_pattern_iff_example :
    (matches_pattern user (spell (behind (codes "user:"))) ≡ true)
    ↔ Matches (behind (codes "user:")) user
matches_pattern_iff_example = matches_pattern_iff (behind (codes "user:")) user tt

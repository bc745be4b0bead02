-- ===== src/Core/Manager/Backup.antt =====
-- crates/ussl-core/src/manager.rs: `backup` and `restore`. The clock is read once for a call.
use ussl.Prelude.{ℕ, suc, ◌+◌, ◌/◌, List, [], ◌∷◌, Option, none, some, if◌then◌else◌}
use ussl.Prelude.Int.{ℤ, pos}
use ussl.Text.{Text}
use ussl.TextMap.{TextMap, insert}
use ussl.Core.Error.{Result, ok, err, hang, ◌>>=◌, invalid_strategy}
use ussl.Core.Strategy.{Strategy, name_of, parse_strategy}
use ussl.Core.Document.Id.{new_id}
use ussl.Core.Document.Meta.{ttl_remaining}
use ussl.Core.Document.State.{Yrs, Document, new_document}
use ussl.Core.Document.Sync.{encode_state, apply_state}
use ussl.Core.Manager.State.{DocumentManager, doc_expired}

pub record DocumentBackup : Type 0 where
  pub id : Text
  pub strategy : Text
  pub state : Text
  pub ttl_remaining_ms : Option ℤ

pub record Backup : Type 0 where
  pub version : ℕ
  pub timestamp : ℕ
  pub documents : List DocumentBackup

-- `ttl_remaining_ms.filter(|&t| t > 0).map(|t| t as u64)`
abbrev pub positive_ttl : Option ℤ → Option ℕ
positive_ttl (some (pos (suc n))) = some (suc n)
positive_ttl _ = none

-- `parse().map_err(|_| Error::InvalidStrategy(..))`
abbrev pub checked_strategy : Text → Result Strategy → Result Strategy
checked_strategy name (ok s) = ok s
checked_strategy name (err e) = err (invalid_strategy name)
checked_strategy name hang = hang

module _ (Y : Yrs) {F : Type 0} where
  unfoldable pub backup_document : ℕ → Text → Document Y F → DocumentBackup
  backup_document now key doc = record {
    id = key;
    strategy = name_of doc.meta.strategy;
    state = encode_state Y doc;
    ttl_remaining_ms = ttl_remaining now doc.meta;
  }

  unfoldable pub backup_from : ℕ → TextMap (Document Y F) → List DocumentBackup
  backup_from now [] = []
  backup_from now ((key, doc) ∷ m) =
      let rest = backup_from now m in
      if doc_expired now doc then rest else backup_document now key doc ∷ rest

  -- What `apply_state` did to the document that it was called on, or its error.
  abbrev pub applied : Result (Unit {0}) × Document Y F → Result (Document Y F)
  applied (ok u, d) = ok d
  applied (err e, d) = err e
  applied (hang, d) = hang

  -- the document of one entry of a backup
  unfoldable pub restore_document : ℕ → DocumentBackup → Result (Document Y F)
  restore_document now b = do
    id ← new_id b.id
    strategy ← checked_strategy b.strategy (parse_strategy b.strategy)
    applied (
        apply_state Y now b.state
          (new_document Y now id strategy (positive_ttl b.ttl_remaining_ms)))

module _ (Y : Yrs) {F J : Type 0} where
  unfoldable pub backup : ℕ → DocumentManager Y F J → Backup
  backup now m = record {
    version = 1;
    timestamp = now / 1000;
    documents = backup_from Y now m.documents;
  }

  -- An entry that fails ends the call; the entries before it have been inserted.
  abbrev pub restore_step :
      Text
      → ℕ
      → Result (Document Y F)
      → (ℕ → DocumentManager Y F J → Result ℕ × DocumentManager Y F J)
      → DocumentManager Y F J
      → Result ℕ × DocumentManager Y F J
  restore_step id restored (ok doc) rest m =
      rest (restored + 1) (record m { documents = insert id doc m.documents })
  restore_step id restored (err e) rest m = (err e, m)
  restore_step id restored hang rest m = (hang, m)

  unfoldable pub restore_from :
      ℕ → List DocumentBackup → ℕ → DocumentManager Y F J → Result ℕ × DocumentManager Y F J
  restore_from now [] restored m = (ok restored, m)
  restore_from now (b ∷ bs) restored m =
      restore_step b.id restored (restore_document Y now b) (λ n m'. restore_from now bs n m') m

  unfoldable pub restore : ℕ → Backup → DocumentManager Y F J → Result ℕ × DocumentManager Y F J
  restore now b m = restore_from now b.documents 0 m

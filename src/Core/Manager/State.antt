-- ===== src/Core/Manager/State.antt =====
-- crates/ussl-core/src/manager.rs: the manager and its operations. `serde_json::Value` is the type
-- `J`; of the broadcast channel of `tokio` the sent deltas and the number of receivers are kept. A
-- document that is shared through an `Arc` is written back into the map by `with_document`.
use ussl.Prelude.{
  ℕ, ◌+◌, ◌-◌, Bool, true, not, List, [], ◌∷◌, ◌++◌, Option, none, some, length, retain,
  if◌then◌else◌,
}
use ussl.Prelude.Int.{ℤ}
use ussl.Text.{Text, text_eq}
use ussl.TextMap.{TextMap, lookup, contains_key, insert, remove, remove_all, map_values, keys_where}
use ussl.Core.Error.{Result, ok, err, hang, ◌>>=◌, document_exists, document_not_found}
use ussl.Core.Strategy.{Strategy}
use ussl.Core.Document.Meta
use ussl.Core.Document.Meta.{DocumentMeta}
use ussl.Core.Document.State.{Yrs, Document, new_document, set_ttl}
use ussl.Core.Manager.Glob.{matches_pattern}

pub record Delta : Type 0 where
  pub document_id : Text
  pub version : ℕ
  pub path : Option Text
  pub payload : Text

pub record Presence (J : Type 0) : Type 0 where
  pub client_id : Text
  pub document_id : Text
  pub payload : J

pub record DocumentManager (Y : Yrs) (F J : Type 0) : Type 0 where
  pub documents : TextMap (Document Y F)
  pub sent : List Delta
  pub receivers : ℕ
  pub presence : TextMap (List (Presence J))

pub record ManagerStats : Type 0 where
  pub document_count : ℕ
  pub subscriber_count : ℕ

abbrev pub found {ℓ} : {A : Type ℓ} → Text → Option A → Result A
found id none = err (document_not_found id)
found id (some d) = ok d

module _ {Y : Yrs} {F : Type 0} where
  -- `Document::is_expired`
  abbrev pub doc_expired : ℕ → Document Y F → Bool
  doc_expired now d = Meta.is_expired now d.meta

  abbrev listed : Option Text → Text × Document Y F → Bool
  listed none e = true
  listed (some pattern) e = matches_pattern e.0 pattern

  -- `list`; the metadata of the documents whose key matches
  unfoldable pub list_from : Option Text → TextMap (Document Y F) → List DocumentMeta
  list_from pattern [] = []
  list_from pattern (e ∷ m) =
      let rest = list_from pattern m in if listed pattern e then e.1.meta ∷ rest else rest

module _ {J : Type 0} where
  abbrev pub present : Option (List (Presence J)) → List (Presence J)
  present none = []
  present (some ps) = ps

  -- `retain(|p| p.client_id != client_id)`
  abbrev pub others : Text → List (Presence J) → List (Presence J)
  others client ps = retain (λ p. not (text_eq p.client_id client)) ps

module _ (Y : Yrs) {F J : Type 0} where
  -- `DocumentManager::new`
  unfoldable pub new_manager : DocumentManager Y F J
  new_manager = record { documents = []; sent = []; receivers = 0; presence = [] }

  unfoldable pub create :
      ℕ
      → Text
      → Strategy
      → Option ℕ
      → DocumentManager Y F J
      → Result (Document Y F) × DocumentManager Y F J
  create now id strategy ttl m =
      let doc = new_document Y now id strategy ttl in
      if contains_key id m.documents
      then (err (document_exists id), m)
      else (ok doc, record m { documents = insert id doc m.documents })

  unfoldable pub get : Text → DocumentManager Y F J → Result (Document Y F)
  get id m = found id (lookup id m.documents)

  abbrev pub or_insert :
      Text
      → Document Y F
      → Option (Document Y F)
      → DocumentManager Y F J
      → Document Y F × DocumentManager Y F J
  or_insert id fresh (some doc) m = (doc, m)
  or_insert id fresh none m = (fresh, record m { documents = insert id fresh m.documents })

  unfoldable pub get_or_create :
      ℕ → Text → Strategy → DocumentManager Y F J → Document Y F × DocumentManager Y F J
  get_or_create now id strategy m =
      or_insert id (new_document Y now id strategy none) (lookup id m.documents) m

  -- A method that is called on the shared document `id`.
  unfoldable pub with_document : Text → Document Y F → DocumentManager Y F J → DocumentManager Y F J
  with_document id doc m = record m { documents = insert id doc m.documents }

  unfoldable pub delete : Text → DocumentManager Y F J → Result (Unit {0}) × DocumentManager Y F J
  delete id m = elim (lookup id m.documents) [
    | none ↦ (err (document_not_found id), m)
    | some d ↦ (ok tt, record m { documents = remove id m.documents })
  ]

  unfoldable pub list : Option Text → DocumentManager Y F J → List DocumentMeta
  list pattern m = list_from pattern m.documents

  unfoldable pub subscribe : DocumentManager Y F J → DocumentManager Y F J
  subscribe m = record m { receivers = m.receivers + 1 }

  -- A receiver is dropped: `receiver_count` counts it no longer.
  unfoldable pub drop_receiver : DocumentManager Y F J → DocumentManager Y F J
  drop_receiver m = record m { receivers = m.receivers - 1 }

  unfoldable pub publish_update : Delta → DocumentManager Y F J → DocumentManager Y F J
  publish_update delta m = record m { sent = m.sent ++ delta ∷ [] }

  unfoldable pub set_presence : Text → Text → J → DocumentManager Y F J → DocumentManager Y F J
  set_presence client id payload m =
      let entry : Presence J = record { client_id = client; document_id = id; payload = payload } in
      let kept = others client (present (lookup id m.presence)) in
      record m { presence = insert id (kept ++ entry ∷ []) m.presence }

  unfoldable pub get_presence : Text → DocumentManager Y F J → List (Presence J)
  get_presence id m = present (lookup id m.presence)

  unfoldable pub remove_presence : Text → DocumentManager Y F J → DocumentManager Y F J
  remove_presence client m = record m { presence = map_values (others client) m.presence }

  abbrev pub expire_found :
      Text
      → Option ℕ
      → Result (Document Y F)
      → DocumentManager Y F J
      → Result (Unit {0}) × DocumentManager Y F J
  expire_found id ttl (ok doc) m = (ok tt, with_document id (set_ttl Y ttl doc) m)
  expire_found id ttl (err e) m = (err e, m)
  expire_found id ttl hang m = (hang, m)

  unfoldable pub set_expire :
      Text → Option ℕ → DocumentManager Y F J → Result (Unit {0}) × DocumentManager Y F J
  set_expire id ttl m = expire_found id ttl (get id m) m

  unfoldable pub ttl : ℕ → Text → DocumentManager Y F J → Result (Option ℤ)
  ttl now id m = get id m >>= (λ doc. ok (Meta.ttl_remaining now doc.meta))

  -- `gc`: the keys of the expired documents are collected first
  unfoldable pub gc : ℕ → DocumentManager Y F J → ℕ × DocumentManager Y F J
  gc now m =
      let to_remove = keys_where (doc_expired now) m.documents in
      (
        length to_remove,
        record m {
          documents = remove_all to_remove m.documents;
          presence = remove_all to_remove m.presence;
        },
      )

  unfoldable pub expired_count : ℕ → DocumentManager Y F J → ℕ
  expired_count now m = length (keys_where (doc_expired now) m.documents)

  unfoldable pub stats : DocumentManager Y F J → ManagerStats
  stats m = record { document_count = length m.documents; subscriber_count = m.receivers }

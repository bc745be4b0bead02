-- ===== src/Core/Manager/Invariant.antt =====
-- crates/ussl-core/src/manager.rs: what holds of every manager that the operations can reach.
use ussl.Prelude.{
  ℕ, ◌≡◌, refl, ap, ◌∙◌, sym, List, [], ◌∷◌, Option, some, arith, Option-cases, Bool-cases, inl,
  inr,
}
use ussl.Prelude.Int.{ℤ}
use ussl.Text.{Text, text_eq_iff}
use ussl.TextMap.{
  TextMap, lookup, insert, remove, remove_all, IsMap, insert-IsMap, remove-IsMap, remove_all-IsMap,
  lookup-insert, lookup-remove, lookup-remove_all, map_values-IsMap, contains_key,
}
use ussl.Core.Error.{Result, ok, err, hang, ◌>>=◌}
use ussl.Core.Strategy.{Strategy, parse_strategy}
use ussl.Core.Value.{Value}
use ussl.Core.Document.Id.{IsDocumentId, new_id, new_id_iff}
use ussl.Core.Document.Meta.{new_meta, touch}
use ussl.Core.Document.State as Doc
use ussl.Core.Document.State.{Yrs, Document, new_document}
use ussl.Core.Document.Sync.{apply_update, apply_state, compact}
use ussl.Core.Document.Writes.{
  Effect, set-Effect, delete-Effect, push-Effect, increment-Effect, apply_update-Effect,
}
use ussl.Core.Document.Compaction.{Compacted, compact-Compacted}
use ussl.Core.Manager.State as Manager
use ussl.Core.Manager.State.{DocumentManager, Delta}
use ussl.Core.Manager.Backup.{
  Backup, DocumentBackup, restore_document, positive_ttl, checked_strategy, applied, restore_step,
  restore_from, restore,
}

module _ (Y : Yrs) {F : Type 0} where
  -- The calls on a shared document, at the times `now`.
  pub data Edit (d : Document Y F) : Document Y F → Type 0 where
    set : (now : ℕ) (path : Text) (value : Value F) → Edit d (Doc.set Y now path value d).1
    delete : (now : ℕ) (path : Option Text) → Edit d (Doc.delete Y now path d).1
    push : (now : ℕ) (path : Text) (value : Value F) → Edit d (Doc.push Y now path value d).1
    increment : (now : ℕ) (path : Text) (delta : ℤ) → Edit d (Doc.increment Y now path delta d).1
    update : (now : ℕ) (bytes : Text) → Edit d (apply_update Y now bytes d).1
    compaction : Edit d (compact Y d).1
    expiry : (ttl : Option ℕ) → Edit d (Doc.set_ttl Y ttl d)

  Effect-id :
      {A : Type 0} (now : ℕ) (d : Document Y F) (r : Result A × Document Y F)
      → Effect Y now d r
      → r.1.meta.id ≡ d.meta.id
  unfolding touch
  Effect-id now d (ok a, d') h = ap (λ m. m.id) h
  Effect-id now d (err e, d') h = ap (λ (x : Document Y F). x.meta.id) h
  Effect-id now d (hang, d') h = ap (λ (x : Document Y F). x.meta.id) h

  Compacted-id :
      (d : Document Y F) (r : Result ℕ × Document Y F) → Compacted Y d r → r.1.meta.id ≡ d.meta.id
  Compacted-id d (ok n, d') h = ap (λ m. m.id) h.0
  Compacted-id d (err e, d') h = ap (λ (x : Document Y F). x.meta.id) h
  Compacted-id d (hang, d') h = ap (λ (x : Document Y F). x.meta.id) h

  Edit-id : {d d' : Document Y F} → Edit d d' → d'.meta.id ≡ d.meta.id
  Edit-id {d} (set now path value) = Effect-id now d _ (set-Effect Y now path value d)
  Edit-id {d} (delete now path) = Effect-id now d _ (delete-Effect Y now path d)
  Edit-id {d} (push now path value) = Effect-id now d _ (push-Effect Y now path value d)
  Edit-id {d} (increment now path delta) = Effect-id now d _ (increment-Effect Y now path delta d)
  Edit-id {d} (update now bytes) = Effect-id now d _ (apply_update-Effect Y now bytes d)
  Edit-id {d} compaction = Compacted-id d _ (compact-Compacted Y d)
  Edit-id (expiry ttl) = unfold Doc.set_ttl in refl

  -- Each key stands once, is a document id, and is the id of its document.
  pub record IsNamed (docs : TextMap (Document Y F)) : Type 0 where
    pub unique : IsMap docs
    pub allowed : (k : Text) (d : Document Y F) → lookup k docs ≡ some d → IsDocumentId k
    pub named : (k : Text) (d : Document Y F) → lookup k docs ≡ some d → d.meta.id ≡ k

  insert-IsNamed :
      (id : Text) (d : Document Y F) (docs : TextMap (Document Y F))
      → IsDocumentId id
      → d.meta.id ≡ id
      → IsNamed docs
      → IsNamed (insert id d docs)
  insert-IsNamed id d docs i e h = record {
    unique = insert-IsMap id d docs h.unique;
    allowed = λ k x l.
        let a = h.allowed k x in ground (arith, lookup-insert id k d docs, text_eq_iff id k);
    named =
        λ k x l. let a = h.named k x in ground (arith, lookup-insert id k d docs, text_eq_iff id k);
  }

  removed-IsNamed :
      (docs rest : TextMap (Document Y F))
      → IsMap rest
      → ((k : Text) (d : Document Y F) → lookup k rest ≡ some d → lookup k docs ≡ some d)
      → IsNamed docs
      → IsNamed rest
  removed-IsNamed docs rest u sub h = record {
    unique = u;
    allowed = λ k x l. h.allowed k x (sub k x l);
    named = λ k x l. h.named k x (sub k x l);
  }

  remove-IsNamed :
      (id : Text) (docs : TextMap (Document Y F)) → IsNamed docs → IsNamed (remove id docs)
  remove-IsNamed id docs h =
      removed-IsNamed docs (remove id docs) (remove-IsMap id docs h.unique)
        (λ k d l. ground (arith, lookup-remove id k docs)) h

  remove_all-IsNamed :
      (ids : List Text) (docs : TextMap (Document Y F))
      → IsNamed docs
      → IsNamed (remove_all ids docs)
  remove_all-IsNamed ids docs h =
      removed-IsNamed docs (remove_all ids docs) (remove_all-IsMap ids docs h.unique)
        (λ k d l. ground (arith, lookup-remove_all ids k docs)) h

  apply_state-id :
      (now : ℕ) (state : Text) (d d' : Document Y F)
      → applied Y (apply_state Y now state d) ≡ ok d'
      → d'.meta.id ≡ d.meta.id
  unfolding apply_state touch
  apply_state-id now [] d d' h = ground arith
  apply_state-id now (c ∷ state) d d' h = ground arith

  restore_document-id :
      (now : ℕ) (b : DocumentBackup) (d : Document Y F)
      → restore_document Y now b ≡ ok d
      → IsDocumentId b.id × (d.meta.id ≡ b.id)
  unfolding restore_document new_document new_meta
  restore_document-id now b d h =
      parsed (new_id b.id) (checked_strategy b.strategy (parse_strategy b.strategy)) refl h
    where
      parsed :
          (i : Result Text) (s : Result Strategy)
          → new_id b.id ≡ i
          → (do
            id ← i
            strategy ← s
            applied Y (
                apply_state Y now b.state
                  (new_document Y now id strategy (positive_ttl b.ttl_remaining_ms))))
            ≡ ok d
          → IsDocumentId b.id × (d.meta.id ≡ b.id)
      parsed (ok id) (ok strategy) e g =
          let v = (new_id_iff b.id id).0 e in (v.0, apply_state-id now b.state _ d g ∙ sym v.1)
      parsed (ok id) (err x) e g = ground arith
      parsed (ok id) hang e g = ground arith
      parsed (err x) s e g = ground arith
      parsed hang s e g = ground arith

  found_inverse :
      (id : Text) (d : Document Y F) (o : Option (Document Y F))
      → Manager.found id o ≡ ok d
      → o ≡ some d
  found_inverse id d o h = ground arith

  pub record IsManager {J : Type 0} (m : DocumentManager Y F J) : Type 0 where
    pub documents : IsNamed m.documents
    pub presence : IsMap m.presence

module _ (Y : Yrs) {F J : Type 0} where
  -- The calls on the manager. The server reads an id with `DocumentId::new` before it creates a
  -- document.
  pub data Call (m : DocumentManager Y F J) : DocumentManager Y F J → Type 0 where
    create :
        (now : ℕ) (id : Text) (strategy : Strategy) (ttl : Option ℕ)
        → IsDocumentId id
        → Call m (Manager.create Y now id strategy ttl m).1
    get_or_create :
        (now : ℕ) (id : Text) (strategy : Strategy)
        → IsDocumentId id
        → Call m (Manager.get_or_create Y now id strategy m).1
    edit :
        (id : Text) (d d' : Document Y F)
        → Manager.get Y id m ≡ ok d
        → Edit Y d d'
        → Call m (Manager.with_document Y id d' m)
    delete : (id : Text) → Call m (Manager.delete Y id m).1
    subscribe : Call m (Manager.subscribe Y m)
    drop_receiver : Call m (Manager.drop_receiver Y m)
    publish_update : (delta : Delta) → Call m (Manager.publish_update Y delta m)
    set_presence :
        (client id : Text) (payload : J) → Call m (Manager.set_presence Y client id payload m)
    remove_presence : (client : Text) → Call m (Manager.remove_presence Y client m)
    set_expire : (id : Text) (ttl : Option ℕ) → Call m (Manager.set_expire Y id ttl m).1
    gc : (now : ℕ) → Call m (Manager.gc Y now m).1
    restoration : (now : ℕ) (b : Backup) → Call m (restore Y now b m).1

  -- The managers that a sequence of calls makes of a new one.
  pub data Reach : DocumentManager Y F J → Type 0 where
    start : Reach (Manager.new_manager Y)
    call : {m m' : DocumentManager Y F J} → Reach m → Call m m' → Reach m'

  put-IsManager :
      (id : Text) (d : Document Y F) (m : DocumentManager Y F J)
      → IsDocumentId id
      → d.meta.id ≡ id
      → IsManager Y m
      → IsManager Y (record m { documents = insert id d m.documents })
  put-IsManager id d m i e h = record {
    documents = insert-IsNamed Y id d m.documents i e h.documents;
    presence = h.presence;
  }

  restore_step-IsManager :
      (now : ℕ) (b : DocumentBackup) (n : ℕ) (m : DocumentManager Y F J)
      → IsManager Y m
      → (rest : ℕ → DocumentManager Y F J → Result ℕ × DocumentManager Y F J)
      → ((n' : ℕ) (m' : DocumentManager Y F J) → IsManager Y m' → IsManager Y (rest n' m').1)
      → IsManager Y (restore_step Y b.id n (restore_document Y now b) rest m).1
  restore_step-IsManager now b n m h rest k = go (restore_document Y now b) refl
    where
      go :
          (r : Result (Document Y F))
          → restore_document Y now b ≡ r
          → IsManager Y (restore_step Y b.id n r rest m).1
      go (ok d) e =
          let i = restore_document-id Y now b d e in k _ _ (put-IsManager b.id d m i.0 i.1 h)
      go (err e) _ = h
      go hang _ = h

  put_found-IsManager :
      (id : Text) (d d' : Document Y F) (m : DocumentManager Y F J)
      → lookup id m.documents ≡ some d
      → d'.meta.id ≡ d.meta.id
      → IsManager Y m
      → IsManager Y (record m { documents = insert id d' m.documents })
  put_found-IsManager id d d' m l e h =
      put-IsManager id d' m (h.documents.allowed id d l) (e ∙ h.documents.named id d l) h

  restore_from-IsManager :
      (now : ℕ) (bs : List DocumentBackup) (n : ℕ) (m : DocumentManager Y F J)
      → IsManager Y m
      → IsManager Y (restore_from Y now bs n m).1
  unfolding restore_from
  restore_from-IsManager now [] n m h = h
  restore_from-IsManager now (b ∷ bs) n m h =
      restore_step-IsManager now b n m h (λ n' m'. restore_from Y now bs n' m')
        (λ n' m' h'. restore_from-IsManager now bs n' m' h')

  Call-IsManager : {m m' : DocumentManager Y F J} → Call m m' → IsManager Y m → IsManager Y m'
  unfolding Manager.delete
  Call-IsManager {m} (create now id strategy ttl i) h =
      unfold Manager.create in
      elim (Bool-cases (contains_key id m.documents)) [
        | inl e ↦ rw e h
        | inr e ↦ rw e (put-IsManager id _ m i (unfold new_document new_meta in refl) h)
      ]
  Call-IsManager {m} (get_or_create now id strategy i) h =
      unfold Manager.get_or_create in
      elim (Option-cases (lookup id m.documents)) [
        | inl e ↦ rw e (put-IsManager id _ m i (unfold new_document new_meta in refl) h)
        | inr (d, e) ↦ rw e h
      ]
  Call-IsManager {m} (edit id d d' e c) h =
      unfold Manager.with_document in
      put_found-IsManager id d d' m (found_inverse Y id d _ (unfold Manager.get in e)) (Edit-id Y c)
        h
  Call-IsManager {m} (delete id) h = elim (Option-cases (lookup id m.documents)) [
    | inl e ↦ rw (e, Manager.delete) h
    | inr (d, e) ↦
        rw (e, Manager.delete)
          (record {
            documents = remove-IsNamed Y id m.documents h.documents;
            presence = h.presence;
          })
  ]
  Call-IsManager drop_receiver h =
      unfold Manager.drop_receiver in record { documents = h.documents; presence = h.presence }
  Call-IsManager subscribe h =
      unfold Manager.subscribe in record { documents = h.documents; presence = h.presence }
  Call-IsManager (publish_update delta) h =
      unfold Manager.publish_update in record { documents = h.documents; presence = h.presence }
  Call-IsManager {m} (set_presence client id payload) h =
      unfold Manager.set_presence in
      record { documents = h.documents; presence = insert-IsMap id _ m.presence h.presence }
  Call-IsManager {m} (remove_presence client) h =
      unfold Manager.remove_presence in
      record { documents = h.documents; presence = map_values-IsMap _ m.presence h.presence }
  Call-IsManager {m} (set_expire id ttl) h =
      unfold Manager.set_expire Manager.get in
      elim (Option-cases (lookup id m.documents)) [
        | inl e ↦ rw e h
        | inr (d, e) ↦
            rw e (unfold Manager.with_document Doc.set_ttl in put_found-IsManager id d _ m e refl h)
      ]
  Call-IsManager {m} (gc now) h =
      unfold Manager.gc in
      record {
        documents = remove_all-IsNamed Y _ m.documents h.documents;
        presence = remove_all-IsMap _ m.presence h.presence;
      }
  Call-IsManager {m} (restoration now b) h =
      unfold restore in restore_from-IsManager now b.documents 0 m h

  -- In every manager that calls can reach each document is found under its own id, which is one that
  -- `DocumentId::new` lets through, and no id has two documents or two lists of presences.
  pub Reach-IsManager : (m : DocumentManager Y F J) → Reach m → IsManager Y m
  Reach-IsManager m start =
      unfold Manager.new_manager in
      record {
        documents = record {
          unique = tt;
          allowed = λ k d e. unfold lookup in ground arith;
          named = λ k d e. unfold lookup in ground arith;
        };
        presence = tt;
      }
  Reach-IsManager m (call r c) = Call-IsManager c (Reach-IsManager _ r)

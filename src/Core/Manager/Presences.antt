-- ===== src/Core/Manager/Presences.antt =====
-- crates/ussl-core/src/manager.rs: who is present at a document.
use mathlib.Core.Option
use ussl.Prelude.{
  ap, append-nil, ℕ, suc, ◌+◌, ◌≡◌, refl, ◌∙◌, List, [], ◌∷◌, ◌++◌, Option, none, some, arith,
  if◌then◌else◌,
}
use ussl.Text.{Text, text_eq, text_eq_iff, text_eq_refl}
use ussl.TextMap.{lookup, lookup-insert, lookup-map_values}
use ussl.Core.Document.State.{Yrs}
use ussl.Core.Manager.State.{
  DocumentManager, Presence, present, others, set_presence, get_presence, remove_presence,
}

module _ {J : Type 0} where
  -- how often a client stands in a list
  abbrev pub count_client : Text → List (Presence J) → ℕ
  count_client c [] = 0
  count_client c (p ∷ ps) =
      if text_eq p.client_id c then suc (count_client c ps) else count_client c ps

  abbrev pub last_of : List (Presence J) → Option (Presence J)
  last_of [] = none
  last_of (p ∷ []) = some p
  last_of (p ∷ q ∷ ps) = last_of (q ∷ ps)

  count_client-others : (c : Text) (ps : List (Presence J)) → count_client c (others c ps) ≡ 0
  count_client-others c [] = refl
  count_client-others c (p ∷ ps) = ground (arith, count_client-others c ps)

  others-append :
      (c : Text) (ps qs : List (Presence J)) → others c (ps ++ qs) ≡ others c ps ++ others c qs
  others-append c [] qs = refl
  others-append c (p ∷ ps) qs = ground (arith, others-append c ps qs)

  others-others : (c : Text) (ps : List (Presence J)) → others c (others c ps) ≡ others c ps
  others-others c [] = refl
  others-others c (p ∷ ps) = ground (arith, others-others c ps)

  count_client-append :
      (c : Text) (ps qs : List (Presence J))
      → count_client c (ps ++ qs) ≡ count_client c ps + count_client c qs
  count_client-append c [] qs = omega arith
  count_client-append c (p ∷ ps) qs = ground (arith, count_client-append c ps qs)

  last_of-append : (p : Presence J) (ps : List (Presence J)) → last_of (ps ++ p ∷ []) ≡ some p
  last_of-append p [] = refl
  last_of-append p (q ∷ []) = refl
  last_of-append p (q ∷ r ∷ ps) = last_of-append p (r ∷ ps)

  present-map :
      (c : Text) (o : Option (List (Presence J)))
      → present (Option.map (others c) o) ≡ others c (present o)
  present-map c none = refl
  present-map c (some ps) = refl

module _ (Y : Yrs) {F J : Type 0} (client : Text) (m : DocumentManager Y F J) where
  -- After a client has set its presence at a document it stands there once, last and with the new
  -- data; the other clients stand there as before, and at other documents nothing has changed.
  get_presence-set_presence :
      (id j : Text) (payload : J)
      → let m' = set_presence Y client id payload m in
        (count_client client (get_presence Y id m') ≡ 1)
        × (last_of (get_presence Y id m')
            ≡ some (record { client_id = client; document_id = id; payload = payload }))
        × (others client (get_presence Y id m') ≡ others client (get_presence Y id m))
        × (get_presence Y j m'
            ≡ (if text_eq id j then get_presence Y id m' else get_presence Y j m))
  unfolding get_presence set_presence
  get_presence-set_presence id j payload =
      let entry : Presence J = record { client_id = client; document_id = id; payload = payload } in
      let kept = others client (present (lookup id m.presence)) in
      let same = text_eq_refl client in
      let gone : others client (entry ∷ []) ≡ [] = ground arith in
      (
        rw (lookup-insert, text_eq_refl)
            (rw (count_client-append client kept (entry ∷ []), count_client-others) (ground arith)),
        rw (lookup-insert, text_eq_refl) (last_of-append entry kept),
        rw (lookup-insert, text_eq_refl)
            (rw (others-append client kept (entry ∷ []), others-others, gone, append-nil)),
        ground (
          arith,
          lookup-insert id j (kept ++ entry ∷ []) m.presence,
          lookup-insert id id (kept ++ entry ∷ []) m.presence,
          text_eq_refl id,
          text_eq_iff id j,
        ),
      )

  -- A client that is removed stands at no document any more; the other clients stand as before.
  pub get_presence-remove_presence :
      (j : Text)
      → (count_client client (get_presence Y j (remove_presence Y client m)) ≡ 0)
        × (get_presence Y j (remove_presence Y client m) ≡ others client (get_presence Y j m))
  unfolding get_presence remove_presence
  get_presence-remove_presence j =
      let e =
        ap present (lookup-map_values (others client) j m.presence)
        ∙ present-map client (lookup j m.presence) in
      (rw e (count_client-others client (present (lookup j m.presence))), e)

-- ===== src/Transport/Handler/Subscriptions.antt =====
-- crates/ussl-transport/src/handler.rs: which deltas a connection is sent.
use ussl.Prelude.{
  ◌≡◌, refl, ap, ◌∙◌, Bool, true, not, ◌&&◌, ◌||◌, List, [], ◌∷◌, ◌++◌, any, retain, arith,
  Bool-cases, inl, inr, if◌then◌else◌,
}
use ussl.Text.{Text, text_eq, text_eq_iff, text_eq_refl}
use ussl.Core.Manager.State.{Delta}
use ussl.Transport.Handler.{
  Handler, contains, handle_subscribe, handle_unsubscribe, covers, matches_subscription,
}

any-append : {A : Type 0} (p : A → Bool) (xs ys : List A) → any p (xs ++ ys) ≡ any p xs || any p ys
any-append p [] ys = refl
any-append p (x ∷ xs) ys = let rest = any-append p xs ys in ground arith

-- A pattern that is there covers what it covers.
any-contains :
    (f : Text → Bool) (ps : List Text) (p : Text)
    → contains ps p ≡ true
    → any f ps ≡ any f ps || f p
any-contains f [] p h = cc
any-contains f (q ∷ ps) p h = let rest = any-contains f ps p in ground (arith, text_eq_iff q p)

contains-retain :
    (ps : List Text) (p q : Text)
    → contains (retain (λ r. not (text_eq r p)) ps) q ≡ contains ps q && not (text_eq q p)
contains-retain [] p q = refl
contains-retain (r ∷ ps) p q =
    let rest = contains-retain ps p q in
    ground (arith, text_eq_iff r q, text_eq_iff r p, text_eq_iff q p)

contains-added : (ps : List Text) (p : Text) → contains (ps ++ p ∷ []) p ≡ true
contains-added [] p = ground (arith, text_eq_refl p)
contains-added (q ∷ ps) p = let rest = contains-added ps p in ground arith

retain-added :
    (ps : List Text) (p : Text)
    → retain (λ q. not (text_eq q p)) (ps ++ p ∷ []) ≡ retain (λ q. not (text_eq q p)) ps
retain-added [] p = ground (arith, text_eq_refl p)
retain-added (q ∷ ps) p = let rest = retain-added ps p in ground arith

-- The patterns after `handle_subscribe`.
abbrev subscribed : Text → List Text → List Text
subscribed p ps = if contains ps p then ps else ps ++ p ∷ []

any-subscribed :
    (f : Text → Bool) (p : Text) (ps : List Text) → any f (subscribed p ps) ≡ any f ps || f p
any-subscribed f p ps = elim (Bool-cases (contains ps p)) [
  | inl e ↦ rw e (any-contains f ps p e)
  | inr e ↦ rw e (let added = any-append f ps (p ∷ []) in ground arith)
]

subscribed_twice : (p : Text) (ps : List Text) → subscribed p (subscribed p ps) ≡ subscribed p ps
subscribed_twice p ps = elim (Bool-cases (contains ps p)) [
  | inl e ↦ rw (e, e) refl
  | inr e ↦ rw (e, contains-added ps p) refl
]

retain-subscribed :
    (p : Text) (ps : List Text)
    → retain (λ q. not (text_eq q p)) (subscribed p ps) ≡ retain (λ q. not (text_eq q p)) ps
retain-subscribed p ps = elim (Bool-cases (contains ps p)) [
  | inl e ↦ rw e refl
  | inr e ↦ rw e (retain-added ps p)
]

module _ (F : Type 0) where
  handle_subscribe-eq :
      (p : Text) (h : Handler)
      → (handle_subscribe {F = F} p h).1 ≡ record h { subscriptions = subscribed p h.subscriptions }
  unfolding handle_subscribe
  handle_subscribe-eq p h = elim (Bool-cases (contains h.subscriptions p)) [
    | inl e ↦ rw e refl
    | inr e ↦ rw e refl
  ]

  -- After SUB a connection is sent the deltas that it was sent before and those that the pattern
  -- covers; a second SUB of a pattern changes nothing; after UNSUB the pattern is gone, the others are
  -- there, and what SUB did is undone.
  pub matches_subscription-subscribe :
      (delta : Delta) (pattern other : Text) (h : Handler)
      → let sub = (handle_subscribe {F = F} pattern h).1 in
        let unsub = (handle_unsubscribe {F = F} pattern h).1 in
        (matches_subscription delta sub
          ≡ matches_subscription delta h || covers delta.document_id pattern)
        × ((handle_subscribe {F = F} pattern sub).1 ≡ sub)
        × (contains unsub.subscriptions other
            ≡ contains h.subscriptions other && not (text_eq other pattern))
        × ((handle_unsubscribe {F = F} pattern sub).1 ≡ unsub)
  unfolding handle_unsubscribe matches_subscription
  matches_subscription-subscribe delta pattern other h =
      let put : List Text → Handler = λ ps. record h { subscriptions = ps } in
      (
        rw (handle_subscribe-eq pattern h)
            (any-subscribed (covers delta.document_id) pattern h.subscriptions),
        rw (handle_subscribe-eq pattern h) (
            handle_subscribe-eq pattern (put (subscribed pattern h.subscriptions))
            ∙ ap put (subscribed_twice pattern h.subscriptions)),
        contains-retain h.subscriptions pattern other,
        rw (handle_subscribe-eq pattern h) (ap put (retain-subscribed pattern h.subscriptions)),
      )

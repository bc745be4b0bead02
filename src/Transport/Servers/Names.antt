-- ===== src/Transport/Servers/Names.antt =====
-- crates/ussl-transport/src/tcp.rs and websocket.rs: the names of the clients of a server.
use ussl.Prelude.{
  ℕ, ◌+◌, ◌^◌, ◌≤◌, ◌<◌, ◌≡◌, ◌≢◌, refl, ◌∙◌, List, [], ◌∷◌, All, length, subst, arith, Bool-cases,
  inl, inr, if◌then◌else◌,
}
use ussl.Prelude.Word.{add64}
use ussl.Text.{Text, codes}
use ussl.Transport.Accept.{client_id, client_id_inj}
use ussl.Transport.Servers.{
  Listener, Arrival, arrived, not_accepted, Protocol, tcp, websocket, is_given, client_name, admits,
  accept_one, accept_all,
}

add64_small : (n : ℕ) → n + 1 < 2 ^ 64 → add64 n 1 ≡ n + 1
unfolding add64
add64_small n h = omega arith

abbrev pub Distinct : List Text → Type 0
Distinct [] = Unit
Distinct (x ∷ xs) = All (λ y. x ≢ y) xs × Distinct xs

-- A name that a count from `n` on gives.
abbrev Counted : ℕ → Text → Type 0
Counted n x = (k : ℕ) × (p : Text) × (a : Text) × (n ≤ k) × (k < 2 ^ 64) × (x ≡ client_id p a k)

Counted-weaken : (n m : ℕ) (xs : List Text) → n ≤ m → All (Counted m) xs → All (Counted n) xs
Counted-weaken n m [] h c = tt
Counted-weaken n m (x ∷ xs) h ((k, p, a, low, high, e), cs) =
    ((k, p, a, omega arith, high, e), Counted-weaken n m xs h cs)

apart_from :
    (n : ℕ) (p a : Text) (xs : List Text)
    → n < 2 ^ 64
    → All (Counted (n + 1)) xs
    → All (λ y. client_id p a n ≢ y) xs
apart_from n p a [] h c = tt
apart_from n p a (x ∷ xs) h ((k, q, b, low, high, e), cs) = (
  λ same. let equal = client_id_inj p q a b n k h high (same ∙ e) in omega arith,
  apart_from n p a xs h cs,
)

module _ {A : Type 0} where
  client_name-Counted :
      (p : Protocol) (l : Listener A) (peer_addr : Text)
      → (q : Text) × (client_name p l peer_addr ≡ client_id q peer_addr l.client_counter)
  client_name-Counted tcp l peer_addr = (codes "tcp", refl)
  client_name-Counted websocket l peer_addr =
      ((if is_given l.tls_config then codes "wss" else codes "ws"), refl)

  accept_all-Counted :
      (p : Protocol) (arrivals : List Arrival) (l : Listener A)
      → l.client_counter + length arrivals < 2 ^ 64
      → All (Counted l.client_counter) (accept_all p arrivals l).0
        × Distinct (accept_all p arrivals l).0
  unfolding accept_all accept_one
  accept_all-Counted p [] l h = (tt, tt)
  accept_all-Counted p (not_accepted ∷ arrivals) l h = accept_all-Counted p arrivals l (omega arith)
  accept_all-Counted p (arrived peer_addr handshake upgrade ∷ arrivals) l h =
      let n = l.client_counter in
      let l1 : Listener A = record l { client_counter = add64 n 1 } in
      let next : add64 n 1 ≡ n + 1 = add64_small n (omega arith) in
      let (counted, distinct) = accept_all-Counted p arrivals l1 (rw next (omega arith)) in
      let behind = subst (λ m. All (Counted m) (accept_all p arrivals l1).0) next counted in
      let (q, name) = client_name-Counted p l peer_addr in
      let rest = Counted-weaken n (n + 1) (accept_all p arrivals l1).0 (omega arith) behind in
      elim (Bool-cases (admits p l handshake upgrade)) [
        | inl e ↦ rw e (
          ((n, q, peer_addr, omega arith, omega arith, name), rest),
          (
            rw name (apart_from n q peer_addr (accept_all p arrivals l1).0 (omega arith) behind),
            distinct,
          ),
        )
        | inr e ↦ rw e (rest, distinct)
      ]

  -- The clients that a server starts, out of fewer than 2^64 arrivals, have names that all differ,
  -- also where they come from the same address, and whichever handshakes fail.
  pub accept_all-Distinct :
      (p : Protocol) (arrivals : List Arrival) (l : Listener A)
      → l.client_counter + length arrivals < 2 ^ 64
      → Distinct (accept_all p arrivals l).0
  accept_all-Distinct p arrivals l h = (accept_all-Counted p arrivals l h).1

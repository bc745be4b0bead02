-- ===== src/Transport/Accept.antt =====
-- The accepting loops of crates/ussl-transport/src/tcp.rs and websocket.rs: the names that clients are
-- given. A server counts its clients in 64 bits.
use ussl.Prelude.{
  ℕ, ◌^◌, ◌<◌, ◌≡◌, ◌≢◌, refl, ap, sym, ◌∙◌, Bool, true, false, not, [], ◌∷◌, ◌++◌, all, any,
  append_assoc, some_inj, ◌==◌, arith, if◌then◌else◌,
}
use ussl.Text.{Text, codes}
use ussl.Protocol.Response.Bytes.{show-all}
use ussl.Protocol.Response.Decimal.{show, read_length, read_length-show}

-- `format!("{}:{}:{}", protocol, peer_addr, n)`
unfoldable pub client_id : Text → Text → ℕ → Text
client_id protocol peer_addr n = protocol ++ b':' ∷ (peer_addr ++ b':' ∷ show n)

abbrev pub tcp_client_id : Text → ℕ → Text
tcp_client_id peer_addr n = client_id (codes "tcp") peer_addr n

-- The protocol is `wss` with TLS.
abbrev pub ws_client_id : Bool → Text → ℕ → Text
ws_client_id tls peer_addr n = client_id (if tls then codes "wss" else codes "ws") peer_addr n

abbrev no_colon : ℕ → Bool
no_colon c = not (c == b':')

abbrev has_colon : Text → Bool
has_colon s = any (λ c. c == b':') s

-- what stands behind the last colon
last_part : Text → Text
last_part [] = []
last_part (c ∷ s) = if has_colon s then last_part s else (if c == b':' then s else c ∷ s)

has_colon-append : (s t : Text) → has_colon (s ++ b':' ∷ t) ≡ true
has_colon-append [] t = refl
has_colon-append (c ∷ s) t = let rest = has_colon-append s t in ground arith

has_colon-all : (t : Text) → all no_colon t ≡ true → has_colon t ≡ false
has_colon-all [] h = refl
has_colon-all (c ∷ t) h = let rest = has_colon-all t in ground arith

last_part-append : (s t : Text) → all no_colon t ≡ true → last_part (s ++ b':' ∷ t) ≡ t
unfolding last_part
last_part-append [] t h = rw (has_colon-all t h) refl
last_part-append (c ∷ s) t h = rw (has_colon-append s t) (last_part-append s t h)

last_part-client_id : (p a : Text) (n : ℕ) → last_part (client_id p a n) ≡ show n
unfolding client_id show
last_part-client_id p a n =
    ap last_part (sym (append_assoc p (b':' ∷ a) (b':' ∷ show n)))
    ∙ last_part-append (p ++ b':' ∷ a) (show n) (show-all no_colon (λ d h. ground arith) n)

show_inj : (n m : ℕ) → n < 2 ^ 64 → m < 2 ^ 64 → show n ≡ show m → n ≡ m
show_inj n m h k e =
    let same =
      sym (read_length-show n [] h)
      ∙ ap (λ s. read_length 0 (s ++ 13 ∷ 10 ∷ [])) e
      ∙ read_length-show m [] k in
    ap (λ (x : ℕ × Text). x.0) (some_inj same)

pub client_id_inj :
    (p q a b : Text) (n m : ℕ) → n < 2 ^ 64 → m < 2 ^ 64 → client_id p a n ≡ client_id q b m → n ≡ m
client_id_inj p q a b n m h k e =
    show_inj n m h k (sym (last_part-client_id p a n) ∙ ap last_part e ∙ last_part-client_id q b m)

other_protocol : (a b : Text) (tls : Bool) (n m : ℕ) → tcp_client_id a n ≢ ws_client_id tls b m
unfolding client_id
other_protocol a b true n m e = ground arith
other_protocol a b false n m e = ground arith

-- Two clients that one server counted differently have different names, whatever their addresses are;
-- and a client over TCP never has the name of one over WebSocket.
client_id_unique :
    (a b : Text) (tls : Bool) (n m : ℕ)
    → n < 2 ^ 64
    → m < 2 ^ 64
    → n ≢ m
    → (tcp_client_id a n ≢ tcp_client_id b m)
      × (ws_client_id tls a n ≢ ws_client_id tls b m)
      × (tcp_client_id a n ≢ ws_client_id tls b m)
client_id_unique a b tls n m h k d = (
  λ e. d (client_id_inj (codes "tcp") (codes "tcp") a b n m h k e),
  λ e. d (client_id_inj _ _ a b n m h k e),
  λ e. other_protocol a b tls n m e,
)

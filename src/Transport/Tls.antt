-- ===== src/Transport/Tls.antt =====
-- crates/ussl-transport/src/tls.rs: `TlsConfig::from_pem`. The files and the crate `rustls` with its reader of PEM
-- are the parameter `Rustls`.
use ussl.Prelude.{List, [], ◌∷◌, ◌++◌}
use ussl.Text.{Text, codes}

-- An item of a PEM file, or the message of an error.
pub data Item (K : Type 0) : Type 0 where
  pkcs1_key pkcs8_key sec1_key : K → Item K
  other : Item K
  unreadable : Text → Item K

pub data TlsError : Type 0 where
  cert_load : Text → TlsError
  key_load : Text → TlsError
  config : Text → TlsError
  handshake : Text → TlsError

-- `Result<T, E>`
pub data Loaded {ℓ} (E : Type 0) (A : Type ℓ) : Type ℓ where
  loaded : A → Loaded E A
  failed : E → Loaded E A

pub record Rustls : Type 1 where
  pub Certificate : Type 0
  pub Key : Type 0
  pub Acceptor : Type 0
  pub open_file : Text → Loaded Text Text
  pub certs : Text → Loaded Text (List Certificate)
  pub items : Text → List (Item Key)
  pub with_single_cert : List Certificate → Item Key → Loaded Text Acceptor

module _ {ℓ κ} {A : Type ℓ} {B : Type κ} where
  -- `map_err(…)?`
  abbrev pub or_error :
      (Text → TlsError) → Loaded Text A → (A → Loaded TlsError B) → Loaded TlsError B
  or_error e (loaded a) k = k a
  or_error e (failed message) k = failed (e message)

  -- `?`
  abbrev pub and_then : Loaded TlsError A → (A → Loaded TlsError B) → Loaded TlsError B
  and_then (loaded a) k = k a
  and_then (failed e) k = failed e

module _ {ℓ} {C : Type ℓ} where
  abbrev pub not_empty : List C → Loaded TlsError (List C)
  not_empty [] = failed (cert_load (codes "No certificates found in file"))
  not_empty (c ∷ cs) = loaded (c ∷ cs)

module _ (R : Rustls) where
  unfoldable pub load_certs : Text → Loaded TlsError (List R.Certificate)
  load_certs path =
      or_error (λ e. cert_load (path ++ codes ": " ++ e)) (R.open_file path)
        (λ file.
          or_error (λ e. cert_load (codes "Failed to parse certificates: " ++ e)) (R.certs file)
            (λ certs. not_empty certs))

  -- the loop over the items
  unfoldable pub find_key : List (Item R.Key) → Loaded TlsError (Item R.Key)
  find_key [] = failed (key_load (codes "No private key found in file"))
  find_key (pkcs1_key key ∷ items) = loaded (pkcs1_key key)
  find_key (pkcs8_key key ∷ items) = loaded (pkcs8_key key)
  find_key (sec1_key key ∷ items) = loaded (sec1_key key)
  find_key (other ∷ items) = find_key items
  find_key (unreadable e ∷ items) = failed (key_load (codes "Failed to parse key: " ++ e))

  unfoldable pub load_private_key : Text → Loaded TlsError (Item R.Key)
  load_private_key path =
      or_error (λ e. key_load (path ++ codes ": " ++ e)) (R.open_file path)
        (λ file. find_key (R.items file))

  -- `TlsConfig::from_pem`, whose value is the acceptor
  unfoldable pub from_pem : Text → Text → Loaded TlsError R.Acceptor
  from_pem cert_path key_path = and_then (load_certs cert_path) (λ certs.
      and_then (load_private_key key_path) (λ key.
        or_error (λ e. config e) (R.with_single_cert certs key) (λ acceptor. loaded acceptor)))

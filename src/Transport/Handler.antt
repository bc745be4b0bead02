-- ===== src/Transport/Handler.antt =====
-- crates/ussl-transport/src/handler.rs: `ConnectionHandler`, what it shares with the other connections,
-- and its subscriptions.
pub mod Documents
pub mod Whole
pub mod Process
pub mod Rounds
pub mod Drain
pub mod Parts
pub mod Gate
pub mod Password
pub mod Stands
pub mod Calls
pub mod Histories
pub mod Subscriptions
pub mod SetGet
use ussl.Prelude.{
  ℕ, Bool, true, false, not, List, [], ◌∷◌, ◌++◌, Option, none, some, any, retain, if◌then◌else◌,
}
use ussl.Text.{Text, codes, text_eq, starts_with}
use ussl.Core.Document.Meta.{DocumentMeta}
use ussl.Core.Document.State.{Yrs}
use ussl.Core.Value.{Value}
use ussl.Core.Manager.Backup.{Backup}
use ussl.Core.Manager.Glob.{strip_star_suffix}
use ussl.Core.Manager.State as Manager
use ussl.Core.Manager.State.{DocumentManager, Delta}
use ussl.Protocol.Json.{SerdeJson, Json}
use ussl.Protocol.Response.{Response, ok}
use ussl.Protocol.Parser.{Parser, new_parser}
use ussl.Transport.RateLimit.{RateLimiter, RateLimitConfig, new_limiter}

-- What the handler calls that is not part of the repository: `yrs`, and `serde_json` to read and to
-- write. `version` is the version of the crate, which the build sets.
pub record Externals (F : Type 0) : Type 1 where
  pub yrs : Yrs
  pub serde : SerdeJson F
  pub from_usize : ℕ → SerdeJson.Number serde
  pub to_vec : Json (SerdeJson.Number serde) → Option Text
  pub backup_to_vec : Backup → Option Text
  pub backup_to_vec_message : Backup → Text
  pub backup_from_str : Text → Option Backup
  pub backup_from_str_message : Text → Text
  pub value_to_json : Value F → Option Text
  pub version : Text

-- A task that `persist_document` has spawned: the arguments of its call of `Storage::store`.
pub record StoreTask : Type 0 where
  pub id : Text
  pub meta : DocumentMeta
  pub state : Text

-- What the connections share: the manager, and the spawned tasks.
pub record World {F : Type 0} (X : Externals F) : Type 0 where
  pub manager : DocumentManager X.yrs F (Json X.serde.Number)
  pub spawned : List StoreTask

-- The clock of the documents in milliseconds, and that of the rate limiter in nanoseconds.
pub record Clock : Type 0 where
  pub ms : ℕ
  pub ns : ℕ

-- `ConnectionHandler` without the manager; of the storage it says whether there is one.
pub record Handler : Type 0 where
  pub client_id : Text
  pub parser : Parser
  pub subscriptions : List Text
  pub require_auth : Bool
  pub authenticated : Bool
  pub password : Option Text
  pub has_storage : Bool
  pub rate_limiter : Option RateLimiter

-- `ConnectionHandler::new`
unfoldable pub new_handler : Text → Handler
new_handler client_id = record {
  client_id = client_id;
  parser = new_parser;
  subscriptions = [];
  require_auth = false;
  authenticated = true;
  password = none;
  has_storage = false;
  rate_limiter = none;
}

-- `ConnectionHandler::with_auth`
unfoldable pub with_auth : Text → Text → Handler
with_auth client_id password = record {
  client_id = client_id;
  parser = new_parser;
  subscriptions = [];
  require_auth = true;
  authenticated = false;
  password = some password;
  has_storage = false;
  rate_limiter = none;
}

unfoldable pub with_storage : Handler → Handler
with_storage h = record h { has_storage = true }

unfoldable pub with_rate_limit : Clock → RateLimitConfig → Handler → Handler
with_rate_limit now config h = record h { rate_limiter = some (new_limiter now.ns config) }

-- `self.subscriptions.contains(&pattern)`
abbrev pub contains : List Text → Text → Bool
contains patterns p = any (λ q. text_eq q p) patterns

module _ {F : Type 0} where
  unfoldable pub handle_subscribe : Text → Handler → Response F × Handler
  handle_subscribe pattern h = (
    ok (some (codes "Subscribed to " ++ pattern)),
    if contains h.subscriptions pattern
        then h
        else record h { subscriptions = h.subscriptions ++ pattern ∷ [] },
  )

  unfoldable pub handle_unsubscribe : Text → Handler → Response F × Handler
  handle_unsubscribe pattern h = (
    ok (some (codes "Unsubscribed from " ++ pattern)),
    record h { subscriptions = retain (λ p. not (text_eq p pattern)) h.subscriptions },
  )

abbrev pub covers_prefix : Text → Text → Option Text → Bool
covers_prefix doc_id pattern (some prefix) = starts_with prefix doc_id
covers_prefix doc_id pattern none = text_eq doc_id pattern

-- the closure of `matches_subscription`
unfoldable pub covers : Text → Text → Bool
covers doc_id pattern =
    if text_eq pattern (codes "*")
    then true
    else covers_prefix doc_id pattern (strip_star_suffix pattern)

unfoldable pub matches_subscription : Delta → Handler → Bool
matches_subscription delta h = any (covers delta.document_id) h.subscriptions

module _ {F : Type 0} (X : Externals F) where
  -- `cleanup`
  unfoldable pub cleanup : Handler → World X → World X
  cleanup h w = record w { manager = Manager.remove_presence X.yrs h.client_id w.manager }

  unfoldable pub subscribe_updates : World X → World X
  subscribe_updates w = record w { manager = Manager.subscribe X.yrs w.manager }

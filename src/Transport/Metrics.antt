-- ===== src/Transport/Metrics.antt =====
-- crates/ussl-transport/src/metrics.rs: `Metrics`. The crate `prometheus` is not part of the repository: its
-- registry, with the values of the metrics in it, is the parameter `Prometheus`.
pub mod Registering
pub mod Counting
pub mod Endpoint
pub mod Http
use ussl.Prelude.{ℕ, List, [], ◌∷◌, Option, none, some}
use ussl.Prelude.Int.{ℤ}
use ussl.Text.{Text, codes}

-- A metric is known by its name, and a value of it by the values of its labels. `register` makes a
-- metric of a name, a help text and the names of its labels, and registers it; it may refuse. The
-- buckets of the histogram are left to it.
pub record Prometheus : Type 1 where
  pub Float : Type 0
  pub Registry : Type 0
  pub new_registry : Registry
  pub register : Text → Text → List Text → Registry → Option Registry
  pub inc : Text → List Text → Registry → Registry
  pub dec : Text → List Text → Registry → Registry
  pub set : Text → ℤ → Registry → Registry
  pub inc_by : Text → ℕ → Registry → Registry
  pub observe : Text → List Text → Float → Registry → Registry
  pub gather : Registry → Text

-- The fields of `Metrics`.
pub data Metric : Type 0 where
  connections_total connections_active : Metric
  commands_total commands_errors command_duration_seconds : Metric
  documents_total documents_created documents_deleted : Metric
  bytes_received bytes_sent : Metric
  subscriptions_active updates_published : Metric
  rate_limited_requests : Metric
  compactions_total compaction_bytes_saved : Metric
  backups_total restores_total : Metric

abbrev pub name_of : Metric → Text
name_of connections_total = codes "ussl_connections_total"
name_of connections_active = codes "ussl_connections_active"
name_of commands_total = codes "ussl_commands_total"
name_of commands_errors = codes "ussl_commands_errors_total"
name_of command_duration_seconds = codes "ussl_command_duration_seconds"
name_of documents_total = codes "ussl_documents_total"
name_of documents_created = codes "ussl_documents_created_total"
name_of documents_deleted = codes "ussl_documents_deleted_total"
name_of bytes_received = codes "ussl_bytes_received_total"
name_of bytes_sent = codes "ussl_bytes_sent_total"
name_of subscriptions_active = codes "ussl_subscriptions_active"
name_of updates_published = codes "ussl_updates_published_total"
name_of rate_limited_requests = codes "ussl_rate_limited_requests_total"
name_of compactions_total = codes "ussl_compactions_total"
name_of compaction_bytes_saved = codes "ussl_compaction_bytes_saved_total"
name_of backups_total = codes "ussl_backups_total"
name_of restores_total = codes "ussl_restores_total"

abbrev pub help_of : Metric → Text
help_of connections_total = codes "Total number of connections"
help_of connections_active = codes "Number of active connections"
help_of commands_total = codes "Total number of commands processed"
help_of commands_errors = codes "Total number of command errors"
help_of command_duration_seconds = codes "Command processing duration"
help_of documents_total = codes "Total number of documents in memory"
help_of documents_created = codes "Total documents created"
help_of documents_deleted = codes "Total documents deleted"
help_of bytes_received = codes "Total bytes received from clients"
help_of bytes_sent = codes "Total bytes sent to clients"
help_of subscriptions_active = codes "Number of active subscriptions"
help_of updates_published = codes "Total updates published to subscribers"
help_of rate_limited_requests = codes "Total requests rejected due to rate limiting"
help_of compactions_total = codes "Total document compactions performed"
help_of compaction_bytes_saved = codes "Total bytes saved by compaction"
help_of backups_total = codes "Total backups performed"
help_of restores_total = codes "Total restores performed"

abbrev pub labels_of : Metric → List Text
labels_of connections_total = codes "transport" ∷ []
labels_of connections_active = codes "transport" ∷ []
labels_of commands_total = codes "command" ∷ []
labels_of commands_errors = codes "command" ∷ codes "error_type" ∷ []
labels_of command_duration_seconds = codes "command" ∷ []
labels_of _ = []

-- in the order of the calls of `register`
abbrev pub registered : List Metric
registered =
    connections_total ∷ connections_active ∷ commands_total ∷ commands_errors
    ∷ command_duration_seconds ∷ documents_total ∷ documents_created ∷ documents_deleted
    ∷ bytes_received ∷ bytes_sent ∷ subscriptions_active ∷ updates_published ∷ rate_limited_requests
    ∷ compactions_total ∷ compaction_bytes_saved ∷ backups_total ∷ restores_total ∷ []

module _ (P : Prometheus) where
  -- `register(…).unwrap()`, once for each; none is a panic
  unfoldable pub register_all : List Metric → P.Registry → Option P.Registry
  register_all [] r = some r
  register_all (m ∷ ms) r = elim (P.register (name_of m) (help_of m) (labels_of m) r) [
    | none ↦ none
    | some r' ↦ register_all ms r'
  ]

  -- `Metrics::new`
  unfoldable pub new_metrics : Option P.Registry
  new_metrics = register_all registered P.new_registry

  unfoldable pub record_connection : Text → P.Registry → P.Registry
  record_connection transport r =
      P.inc (name_of connections_active) (transport ∷ [])
        (P.inc (name_of connections_total) (transport ∷ []) r)

  unfoldable pub record_disconnection : Text → P.Registry → P.Registry
  record_disconnection transport r = P.dec (name_of connections_active) (transport ∷ []) r

  unfoldable pub record_command : Text → P.Float → P.Registry → P.Registry
  record_command command duration_secs r =
      P.observe (name_of command_duration_seconds) (command ∷ []) duration_secs
        (P.inc (name_of commands_total) (command ∷ []) r)

  unfoldable pub record_error : Text → Text → P.Registry → P.Registry
  record_error command error_type r = P.inc (name_of commands_errors) (command ∷ error_type ∷ []) r

  unfoldable pub set_document_count : ℤ → P.Registry → P.Registry
  set_document_count count r = P.set (name_of documents_total) count r

  unfoldable pub record_bytes : ℕ → ℕ → P.Registry → P.Registry
  record_bytes received sent r =
      P.inc_by (name_of bytes_sent) sent (P.inc_by (name_of bytes_received) received r)

  unfoldable pub export : P.Registry → Text
  export r = P.gather r

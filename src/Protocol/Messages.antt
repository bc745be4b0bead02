-- ===== src/Protocol/Messages.antt =====
-- `Display` of the errors, as crates/ussl-core/src/error.rs and crates/ussl-protocol/src/error.rs
-- declare it.
use ussl.Prelude.{◌++◌}
use ussl.Text.{Text, codes}
use ussl.Core.Error as Core
use ussl.Core.Error.{Error}
use ussl.Protocol.Command.{
  ProtocolError, invalid_command, missing_argument, invalid_argument, parse_error, incomplete,
  message_too_large, invalid_json, core,
}
use ussl.Protocol.Response.Decimal.{show}

-- `ussl_core::Error`
unfoldable pub error_text : Error → Text
error_text (Core.document_not_found id) = codes "Document not found: " ++ id
error_text (Core.invalid_document_id what) = codes "Invalid document ID: " ++ what
error_text (Core.invalid_path path) = codes "Invalid path: " ++ path
error_text (Core.strategy_mismatch expected got) =
    codes "Strategy mismatch: expected " ++ expected ++ codes ", got " ++ got
error_text (Core.document_exists id) = codes "Document already exists: " ++ id
error_text (Core.serialization what) = codes "Serialization error: " ++ what
error_text (Core.crdt what) = codes "CRDT error: " ++ what
error_text (Core.document_too_large size limit) =
    codes "Document size exceeds limit: " ++ show size ++ codes " > " ++ show limit
error_text (Core.nesting_too_deep depth limit) =
    codes "Nesting depth exceeds limit: " ++ show depth ++ codes " > " ++ show limit
error_text (Core.invalid_strategy what) = codes "Invalid strategy: " ++ what
error_text (Core.restore_error what) = codes "Failed to restore state: " ++ what

-- `ProtocolError`
unfoldable pub protocol_text : ProtocolError → Text
unfolding error_text
protocol_text (invalid_command what) = codes "Invalid command: " ++ what
protocol_text (missing_argument what) = codes "Missing argument: " ++ what
protocol_text (invalid_argument what) = codes "Invalid argument: " ++ what
protocol_text (parse_error what) = codes "Parse error: " ++ what
protocol_text incomplete = codes "Incomplete message"
protocol_text (message_too_large size max) =
    codes "Message too large: " ++ show size ++ codes " > " ++ show max
protocol_text (invalid_json what) = codes "Invalid JSON: " ++ what
protocol_text (core e) = codes "Core error: " ++ error_text e

-- ===== src/Samples/Servers.antt =====
-- Connections over TCP and WebSocket.
use ussl.Prelude.{◌≡◌, refl, false, List, [], ◌∷◌, ◌++◌, none}
use ussl.Transport.Connection.{
  Server, closed, failed, connect, close, leave, receive, handler_for, send_responses,
}
use ussl.Transport.Tcp as Tcp
use ussl.Transport.WebSocket as WebSocket
use ussl.Transport.Closed.{closed-absent}
use ussl.Samples.Connections.{externals, noon, fresh}
use ussl.Core.Manager.State.{get_presence, set_presence}
use ussl.Core.Manager.Presences.{count_client}
use ussl.Text.{Text, codes, text_eq}
use ussl.Text.Space.{trim, trim_end, skip_space, space_length}
use ussl.Text.Case.{to_uppercase, upper_from}
use ussl.Text.Utf8.{from_utf8_lossy, lossy_from}
use ussl.Core.Path.{segments, collect, run_collect, parse_usize, parse_digits}
use ussl.Core.Document.State.{new_document}
use ussl.Core.Document.Meta.{new_meta, touch}
use ussl.TextMap.{lookup, insert, remove}
use ussl.Prelude.Word.{add64}
use ussl.Core.Document.Id.{new_id, is_id_byte, is_alphanumeric}
use ussl.Core.Document.State as Doc
use ussl.Core.Manager.State as Manager
use ussl.Core.Document.State.{write_at, read_at}
use ussl.Core.Document.Sync.{should_compact}
use ussl.Core.Value.{set_path, store_all, store, get_field, insert_field, get_path, get_from, child}
use ussl.Protocol.Options.{parse_set, parse_get, get_options}
use ussl.Protocol.Arguments.{parse_delete}
use ussl.Protocol.Tokenizer.{rest}
use ussl.Protocol.Json.{json_to_value}
use ussl.Transport.Handler.Documents.{
  with_id, after_write, maybe_auto_compact, persist_document, handle_delete,
}
use ussl.Core.Manager.State.{Delta, new_manager, get_or_create, with_document, publish_update}
use ussl.Protocol.Json.{parse_value}
use ussl.Protocol.Tokenizer.{next_token, skip_spaces, read_token, span_word}
use ussl.Protocol.Tokenizer.Tokens.{tokens_from, tokens_of}
use ussl.Protocol.Parser.{split_line, parse, parse_line, feed, read_line, dispatch, without_return}
use ussl.Transport.Handler.{new_handler, cleanup}
use ussl.Transport.Handler.Documents.{handle_set, handle_get}
use ussl.Transport.Handler.Whole.{handle_command, handle_kind}
use ussl.Transport.Handler.Process.{process, process_loop, serve, check_limit}
use ussl.Transport.Handler.Histories.{closed}
use ussl.Samples.Library.{plain as texts}
use ussl.TextMap.{map_values}
use ussl.Protocol.Options.{parse_presence}
use ussl.Protocol.Response.{encode, encode_into, put}
use ussl.Transport.Handler.Whole.{handle_presence}
use ussl.Transport.Handler.{subscribe_updates}

abbrev plain_server : Server
plain_server = record { password = none; has_storage = false; rate_limit = none }

abbrev tcp_events : List (Tcp.Event externals)
tcp_events =
    Tcp.read noon (codes "PRESENCE a 5" ++ 10 ∷ []) []
    ∷ Tcp.read noon (codes "QUIT" ++ 10 ∷ []) []
    ∷ []

abbrev ws_events : List (WebSocket.Event externals)
ws_events =
    WebSocket.text_frame noon (codes "PRESENCE a 5") []
    ∷ WebSocket.lagged 3
    ∷ WebSocket.text_frame noon (codes "quit") []
    ∷ []

abbrev tcp_all : List (Tcp.Event externals)
tcp_all = tcp_events ++ Tcp.disconnected ∷ []

abbrev ws_all : List (WebSocket.Event externals)
ws_all = ws_events ++ WebSocket.disconnected ∷ []

abbrev client : Text
client = codes "c"

tcp_closed :
    (Tcp.handle_connection externals noon client plain_server tcp_all fresh).status ≡ closed
unfolding process process_loop feed parse split_line read_line without_return from_utf8_lossy
    lossy_from parse_line trim trim_end skip_space space_length next_token skip_spaces read_token
    span_word to_uppercase upper_from dispatch text_eq serve check_limit handle_command handle_kind
    new_handler with_id new_id is_id_byte is_alphanumeric handle_set handle_get handle_delete
    get_or_create lookup insert remove with_document new_manager new_document new_meta Doc.set
    Doc.get Manager.get Manager.delete write_at set_path segments collect run_collect store_all
    store get_field insert_field touch add64 after_write maybe_auto_compact should_compact
    persist_document publish_update parse_set rest parse_value parse_usize parse_digits
    json_to_value parse_get tokens_of tokens_from get_options read_at get_path get_from child
    parse_delete Tcp.handle_connection Tcp.run_events WebSocket.handle_ws_connection
    WebSocket.run_events WebSocket.line_of WebSocket.ends_line connect handler_for receive
    send_responses close leave Manager.drop_receiver cleanup subscribe_updates Manager.subscribe
    Manager.remove_presence parse_presence handle_presence set_presence get_presence map_values
    encode encode_into put
tcp_closed = refl

ws_closed :
    (WebSocket.handle_ws_connection externals noon client plain_server ws_all fresh).status ≡ closed
unfolding process process_loop feed parse split_line read_line without_return from_utf8_lossy
    lossy_from parse_line trim trim_end skip_space space_length next_token skip_spaces read_token
    span_word to_uppercase upper_from dispatch text_eq serve check_limit handle_command handle_kind
    new_handler with_id new_id is_id_byte is_alphanumeric handle_set handle_get handle_delete
    get_or_create lookup insert remove with_document new_manager new_document new_meta Doc.set
    Doc.get Manager.get Manager.delete write_at set_path segments collect run_collect store_all
    store get_field insert_field touch add64 after_write maybe_auto_compact should_compact
    persist_document publish_update parse_set rest parse_value parse_usize parse_digits
    json_to_value parse_get tokens_of tokens_from get_options read_at get_path get_from child
    parse_delete Tcp.handle_connection Tcp.run_events WebSocket.handle_ws_connection
    WebSocket.run_events WebSocket.line_of WebSocket.ends_line connect handler_for receive
    send_responses close leave Manager.drop_receiver cleanup subscribe_updates Manager.subscribe
    Manager.remove_presence parse_presence handle_presence set_presence get_presence map_values
    encode encode_into put
ws_closed = refl

closed-absent_example :
    let tcp = Tcp.handle_connection externals noon client plain_server tcp_all fresh in
    let ws = WebSocket.handle_ws_connection externals noon client plain_server ws_all fresh in
    (count_client client (get_presence texts (codes "a") tcp.world.manager) ≡ 0)
    × (count_client client (get_presence texts (codes "a") ws.world.manager) ≡ 0)
closed-absent_example =
    closed-absent externals noon client plain_server fresh tcp_events ws_events (codes "a")
      (tt, (tt, (tt, tt))) (tt, (tt, (tt, (tt, tt)))) (λ e. let c = tcp_closed in cc)
      (λ e. let c = ws_closed in cc)

abbrev broken_events : List (Tcp.Event externals)
broken_events = Tcp.read noon (codes "PRESENCE a 5" ++ 10 ∷ []) (false ∷ []) ∷ []

-- Where the write of a response fails, the connection ends without a clean-up: its client stays present.
left_behind :
    let c = Tcp.handle_connection externals noon client plain_server broken_events fresh in
    (c.status ≡ failed) × (count_client client (get_presence texts (codes "a") c.world.manager) ≡ 1)
unfolding process process_loop feed parse split_line read_line without_return from_utf8_lossy
    lossy_from parse_line trim trim_end skip_space space_length next_token skip_spaces read_token
    span_word to_uppercase upper_from dispatch text_eq serve check_limit handle_command handle_kind
    new_handler with_id new_id is_id_byte is_alphanumeric handle_set handle_get handle_delete
    get_or_create lookup insert remove with_document new_manager new_document new_meta Doc.set
    Doc.get Manager.get Manager.delete write_at set_path segments collect run_collect store_all
    store get_field insert_field touch add64 after_write maybe_auto_compact should_compact
    persist_document publish_update parse_set rest parse_value parse_usize parse_digits
    json_to_value parse_get tokens_of tokens_from get_options read_at get_path get_from child
    parse_delete Tcp.handle_connection Tcp.run_events WebSocket.handle_ws_connection
    WebSocket.run_events WebSocket.line_of WebSocket.ends_line connect handler_for receive
    send_responses close leave Manager.drop_receiver cleanup subscribe_updates Manager.subscribe
    Manager.remove_presence parse_presence handle_presence set_presence get_presence map_values
    encode encode_into put
left_behind = (refl, refl)

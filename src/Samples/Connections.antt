-- ===== src/Samples/Connections.antt =====
-- The parser and the connections.
use ussl.Prelude.{
  List, ℕ, ◌≡◌, ◌≢◌, refl, true, false, not, ◌&&◌, ◌||◌, [], ◌∷◌, ◌++◌, Option, none, some, arith,
  inl,
}
use ussl.Prelude.Int.{pos}
use ussl.Text.{Text, codes, text_eq}
use ussl.Text.Space.{trim, trim_end, skip_space, space_length}
use ussl.Text.Case.{to_uppercase, upper_from}
use ussl.Text.Utf8.{from_utf8_lossy, lossy_from}
use ussl.Core.Path.{key, segments, collect, run_collect, parse_usize, parse_digits}
use ussl.Core.Document.State.{new_document}
use ussl.Core.Document.Meta.{new_meta, touch}
use ussl.TextMap.{lookup, insert, remove}
use ussl.Prelude.Word.{add64}
use ussl.Core.Document.Id.{new_id, is_id_byte, is_alphanumeric}
use ussl.Core.Document.State as Doc
use ussl.Core.Manager.State as Manager
use ussl.Core.Document.State.{write_at, read_at}
use ussl.Core.Document.Sync.{should_compact}
use ussl.Core.Value.{set_path, store_all, store, get_field, insert_field, get_path, get_from, child}
use ussl.Protocol.Options.{parse_set, parse_get, get_options}
use ussl.Protocol.Arguments.{parse_delete}
use ussl.Protocol.Tokenizer.{rest}
use ussl.Protocol.Json.{json_to_value}
use ussl.Transport.Handler.Documents.{
  with_id, after_write, maybe_auto_compact, persist_document, handle_delete,
}
use ussl.Core.Strategy.{lww, crdt_text, default, name_of}
use ussl.Core.Value.{number, integer, string}
use ussl.Core.Manager.State.{Delta, new_manager, get_or_create, with_document, publish_update}
use ussl.Core.Manager.Invariant.{Reach, IsManager, start}
use ussl.Protocol.Json.{SerdeJson, Json, parse_value}
use ussl.Protocol.Command as Kind
use ussl.Protocol.Command.{Command, ok, err, ◌>>=◌}
use ussl.Protocol.Command.New as New
use ussl.Protocol.Response as Response
use ussl.Protocol.Tokenizer.{next_token, skip_spaces, read_token, span_word}
use ussl.Protocol.Tokenizer.Tokens.{tokens_from, tokens_of}
use ussl.Protocol.Tokenizer.Spelling.{Argument, plain, quoted, spell}
use ussl.Protocol.Parser.{
  split_line, Parser, parse, parse_line, feed, read_line, dispatch, without_return, new_parser,
}
use ussl.Protocol.Parser.Framing.{line_outcome, parse-lines, parse-feed}
use ussl.Protocol.Parser.Spelling.{parse_line-set, parse_create-spell}
use ussl.Transport.Handler.{
  Externals, World, Clock, Handler, new_handler, handle_subscribe, handle_unsubscribe, contains,
  covers, matches_subscription, cleanup,
}
use ussl.Transport.Handler.Documents.{handle_set, handle_get}
use ussl.Transport.Handler.Whole.{handle_command, handle_kind}
use ussl.Transport.Handler.Process.{waiting, exhausted, process, process_loop, serve, check_limit}
use ussl.Transport.Handler.Drain.{process-ends}
use ussl.Transport.Handler.Parts.{prepend, process-append}
use ussl.Transport.Handler.Gate.{process-gate}
use ussl.Transport.Handler.Password.{opens, handle_command-authenticated}
use ussl.Transport.Handler.Histories.{idle, processed, closed, Served-IsManager}
use ussl.Transport.Handler.Subscriptions.{matches_subscription-subscribe}
use ussl.Transport.Handler.SetGet.{handle_get-handle_set}
use ussl.Samples.Library.{plain as texts, plain_text}
use ussl.Samples.Documents.{user, user-IsDocumentId}

abbrev read_number : Option ℕ → Option (Json ℕ)
read_number none = none
read_number (some n) = some (Json.number n)

-- JSON of natural numbers alone
abbrev pub numbers : SerdeJson ℕ
numbers = record {
  Number = ℕ;
  as_i64 = λ n. some (pos n);
  as_f64 = λ n. none;
  from_str = λ s. read_number (parse_usize s);
  from_str_message = λ s. codes "no number";
}

abbrev pub externals : Externals ℕ
externals = record {
  yrs = texts;
  serde = numbers;
  from_usize = λ n. n;
  to_vec = λ j. none;
  backup_to_vec = λ b. none;
  backup_to_vec_message = λ b. codes "no";
  backup_from_str = λ s. none;
  backup_from_str_message = λ s. codes "no";
  value_to_json = λ v. none;
  version = codes "1";
}

abbrev pub noon : Clock
noon = record { ms = 7; ns = 7000000 }

abbrev pub fresh : World externals
fresh = record { manager = new_manager texts; spawned = [] }

abbrev received : Parser
received = record { buffer = codes "PING" ++ 13 ∷ 10 ∷ codes "TTL a" }

parse-lines_example :
    (parse numbers (record { buffer = codes "PING" ++ 13 ∷ 10 ∷ codes "GE" })
      ≡ (line_outcome numbers (codes "PING"), record { buffer = codes "GE" }))
    × (parse numbers (record { buffer = codes "PING" ++ 10 ∷ codes "GE" })
        ≡ (line_outcome numbers (without_return (codes "PING")), record { buffer = codes "GE" }))
    × (parse numbers (record { buffer = codes "PING" })
        ≡ (ok none, record { buffer = codes "PING" }))
parse-lines_example = parse-lines numbers (codes "PING") (codes "GE") refl

parse-feed_example :
    (parse numbers (feed (codes "b") received).1 ≡ (
      (parse numbers received).0,
      record { buffer = (parse numbers received).1.buffer ++ codes "b" },
    ))
    × (feed (10 ∷ []) (feed (codes "b") received).1 ≡ feed (codes "b" ++ 10 ∷ []) received)
parse-feed_example = parse-feed numbers received (codes "b") (10 ∷ []) has_line (omega arith)
  where
    has_line : split_line (codes "PING" ++ 13 ∷ 10 ∷ codes "TTL a") ≢ none
    has_line e = unfold split_line in cc e

set_upper : to_uppercase (codes "Set") ≡ codes "SET"
unfolding to_uppercase upper_from
set_upper = refl

set_trimmed : trim (codes "Set \"a b\" x.y 5") ≡ codes "Set \"a b\" x.y 5"
unfolding trim trim_end skip_space space_length
set_trimmed = refl

parse_line-set_example :
    parse_line numbers (codes "Set \"a b\" x.y 5")
    ≡ (parse_value numbers (codes "5") >>= λ value. ok (New.set (codes "a b") (codes "x.y") value))
parse_line-set_example =
    parse_line-set numbers b'S' (codes "et") (quoted (codes "a b")) (plain (codes "x.y")) b'5' []
      set_upper (refl, refl) refl (refl, refl) refl set_trimmed

word_strategy : to_uppercase (codes "strategy") ≡ codes "STRATEGY"
unfolding to_uppercase upper_from
word_strategy = refl

word_ttl : to_uppercase (codes "TTL") ≡ codes "TTL"
unfolding to_uppercase upper_from
word_ttl = refl

sixty : parse_usize (codes "60") ≡ some 60
unfolding parse_usize parse_digits
sixty = refl

create_upper : to_uppercase (codes "Create") ≡ codes "CREATE"
unfolding to_uppercase upper_from
create_upper = refl

abbrev by_strategy : List Argument
by_strategy =
    plain (codes "n")
    ∷ plain (codes "strategy")
    ∷ plain (name_of crdt_text)
    ∷ plain (codes "TTL")
    ∷ plain (codes "60")
    ∷ []

abbrev by_ttl : List Argument
by_ttl =
    plain (codes "n")
    ∷ plain (codes "TTL")
    ∷ plain (codes "60")
    ∷ plain (codes "strategy")
    ∷ plain (name_of crdt_text)
    ∷ []

by_strategy_trimmed :
    trim (codes "Create" ++ spell by_strategy) ≡ codes "Create" ++ spell by_strategy
unfolding trim trim_end skip_space space_length name_of
by_strategy_trimmed = refl

by_ttl_trimmed : trim (codes "Create" ++ spell by_ttl) ≡ codes "Create" ++ spell by_ttl
unfolding trim trim_end skip_space space_length name_of
by_ttl_trimmed = refl

name_trimmed :
    trim (codes "Create" ++ spell (plain (codes "n") ∷ []))
    ≡ codes "Create" ++ spell (plain (codes "n") ∷ [])
unfolding trim trim_end skip_space space_length
name_trimmed = refl

parse_create-spell_example :
    (parse_line numbers (codes "Create" ++ spell by_strategy)
      ≡ ok (New.create (codes "n") crdt_text (some 60)))
    × (parse_line numbers (codes "Create" ++ spell by_ttl)
        ≡ ok (New.create (codes "n") crdt_text (some 60)))
    × (parse_line numbers (codes "Create" ++ spell (plain (codes "n") ∷ []))
        ≡ ok (New.create (codes "n") default none))
parse_create-spell_example =
    parse_create-spell numbers b'C' (codes "reate") (plain (codes "n")) (plain (codes "strategy"))
      (plain (codes "TTL")) (plain (codes "60")) crdt_text 60 create_upper (refl, refl)
      ((refl, refl), ((refl, refl), ((refl, refl), ((refl, refl), tt)))) word_strategy word_ttl
      sixty by_strategy_trimmed by_ttl_trimmed name_trimmed

process-ends_example :
    (process externals noon
      (codes "PING" ++ 10 ∷ codes "QUIT" ++ 10 ∷ [])
      (new_handler (codes "c"))
      fresh).ending
    ≢ exhausted
process-ends_example =
    process-ends externals noon (codes "PING" ++ 10 ∷ codes "QUIT" ++ 10 ∷ [])
      (new_handler (codes "c")) fresh

abbrev guarded : Handler
guarded = record {
  client_id = codes "c";
  parser = new_parser;
  subscriptions = [];
  require_auth = true;
  authenticated = false;
  password = some (codes "pw");
  has_storage = true;
  rate_limiter = none;
}

abbrev pub first_part : Text
first_part = codes "PING" ++ 10 ∷ codes "SET a"

abbrev second_part : Text
second_part = codes " x 5" ++ 10 ∷ []

first_waits : (process externals noon first_part guarded fresh).ending ≡ waiting
unfolding process process_loop feed parse split_line read_line without_return from_utf8_lossy
    lossy_from parse_line trim trim_end skip_space space_length next_token skip_spaces read_token
    span_word to_uppercase upper_from dispatch text_eq serve check_limit handle_command handle_kind
first_waits = refl

process-append_example :
    let first = process externals noon first_part guarded fresh in
    process externals noon (first_part ++ second_part) guarded fresh
    ≡ prepend externals first.responses
        (process externals noon second_part first.handler first.world)
process-append_example =
    process-append externals noon first_part second_part guarded fresh (omega arith) first_waits

still_shut : (process externals noon first_part guarded fresh).handler.authenticated ≡ false
unfolding process process_loop feed parse split_line read_line without_return from_utf8_lossy
    lossy_from parse_line trim trim_end skip_space space_length next_token skip_spaces read_token
    span_word to_uppercase upper_from dispatch text_eq serve check_limit handle_command handle_kind
still_shut = refl

process-gate_example :
    ((process externals noon first_part guarded fresh).world ≡ fresh)
    × ((process externals noon first_part guarded fresh).handler.require_auth ≡ true)
    × ((process externals noon first_part guarded fresh).handler.password ≡ some (codes "pw"))
process-gate_example = process-gate externals noon first_part guarded fresh refl still_shut

handle_command-authenticated_example :
    (handle_command externals noon (New.auth (codes "pw")) guarded fresh).handler.authenticated
    ≡ false || opens externals (Kind.auth (codes "pw")) (some (codes "pw"))
handle_command-authenticated_example =
    handle_command-authenticated externals noon (New.auth (codes "pw")) guarded fresh

Served-IsManager_example :
    let w = process externals noon first_part guarded fresh in
    Reach texts (cleanup externals guarded w.world).manager
    × IsManager texts (cleanup externals guarded w.world).manager
Served-IsManager_example =
    Served-IsManager externals fresh _ (closed guarded (processed noon first_part guarded idle))
      start

abbrev update : Delta
update = record { document_id = user; version = 2; path = none; payload = [] }

matches_subscription-subscribe_example :
    let sub = (handle_subscribe {F = ℕ} (codes "user:*") guarded).1 in
    let unsub = (handle_unsubscribe {F = ℕ} (codes "user:*") guarded).1 in
    (matches_subscription update sub
      ≡ matches_subscription update guarded || covers user (codes "user:*"))
    × ((handle_subscribe {F = ℕ} (codes "user:*") sub).1 ≡ sub)
    × (contains unsub.subscriptions user ≡ contains [] user && not (text_eq user (codes "user:*")))
    × ((handle_unsubscribe {F = ℕ} (codes "user:*") sub).1 ≡ unsub)
matches_subscription-subscribe_example =
    matches_subscription-subscribe ℕ update (codes "user:*") user guarded

tags_path : segments (codes "tags") ≡ some (key (codes "tags") ∷ [])
unfolding segments collect run_collect
tags_path = refl

handle_get-handle_set_example :
    let set =
      handle_set externals noon true (some user) (codes "tags") (string (codes "a")) fresh in
    (set.0 ≡ some (Response.ok none))
    × (handle_get externals (some user) (some (codes "tags")) set.1
        ≡ (some (Response.value (string (codes "a"))), set.1))
handle_get-handle_set_example =
    handle_get-handle_set externals noon true user (codes "tags") (key (codes "tags")) []
      (string (codes "a")) fresh plain_text user-IsDocumentId tags_path (inl made_lww)
  where
    made_lww :
        (get_or_create texts {F = ℕ} {J = Json ℕ} 7 user default
          (new_manager texts)).0.meta.strategy
        ≡ lww
    made_lww = unfold get_or_create new_manager lookup new_document new_meta in refl

-- A client that needs no authentication sets a value, reads it, and says goodbye; the bytes of a
-- command that follows QUIT in the same part are handled all the same.
conversation :
    (process externals noon
      (codes "SET a x 5"
        ++ 13 ∷ 10 ∷ codes "get a x"
        ++ 10 ∷ codes "quit"
        ++ 10 ∷ codes "DEL a"
        ++ 10 ∷ [])
      (new_handler (codes "c"))
      fresh).responses
    ≡ Response.ok none
      ∷ Response.value (number (integer (pos 5)))
      ∷ Response.ok (some (codes "Goodbye"))
      ∷ Response.ok none
      ∷ []
unfolding process process_loop feed parse split_line read_line without_return from_utf8_lossy
    lossy_from parse_line trim trim_end skip_space space_length next_token skip_spaces read_token
    span_word to_uppercase upper_from dispatch text_eq serve check_limit handle_command handle_kind
    new_handler with_id new_id is_id_byte is_alphanumeric handle_set handle_get handle_delete
    get_or_create lookup insert remove with_document new_manager new_document new_meta Doc.set
    Doc.get Manager.get Manager.delete write_at set_path segments collect run_collect store_all
    store get_field insert_field touch add64 after_write maybe_auto_compact should_compact
    persist_document publish_update parse_set rest parse_value parse_usize parse_digits
    json_to_value parse_get tokens_of tokens_from get_options read_at get_path get_from child
    parse_delete
conversation = refl

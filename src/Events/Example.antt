-- ===== src/Events/Example.antt =====
-- A concrete outside world for the runs: it notes in a list what is asked of it.
use node_ddd_boilerplate_typ.Aws.{AwsClient}
use node_ddd_boilerplate_typ.Base.{List, String, [], none, some, true, ◌∷◌}
use node_ddd_boilerplate_typ.Cache.{CacheDriver}
use node_ddd_boilerplate_typ.Documents.{DocumentDriver}
use node_ddd_boilerplate_typ.Effects.{Call, ok}
use node_ddd_boilerplate_typ.Events.Client.{SocketClient}
use node_ddd_boilerplate_typ.Events.Consumer.{Consumer}
use node_ddd_boilerplate_typ.Events.Handler.{HandlerServices}
use node_ddd_boilerplate_typ.Events.Producer.{Fresh, Producer}
use node_ddd_boilerplate_typ.Events.Server.{Gateway, SocketServer}
use node_ddd_boilerplate_typ.Exceptions.{Error, plain, with_message}
use node_ddd_boilerplate_typ.Platform.{Platform}
use node_ddd_boilerplate_typ.Subscriptions.{Stores}
use node_ddd_boilerplate_typ.Value.{Value, at_ms, end, field, null, obj, str}
use node_ddd_boilerplate_typ.Webhooks.{HookServices}

abbrev pub Trace : Type 0
Trace = List String

abbrev pub note : {A : Type 0} → A → String → Call Trace A
note a what s = (ok a, what ∷ s)

-- A platform that reads every text as one value.
abbrev pub reading : Value → Platform
reading v = record {
  stringify = λ w. some "{}";
  parse = λ t. some v;
  to_text = λ w. "text";
  from_iso = λ s. at_ms 7;
  to_upper_case = λ s. s;
  to_iso = λ d. "iso";
}

abbrev pub circular : Error
circular = record { info = with_message "circular"; origin = plain }

abbrev pub trace_cache : CacheDriver Trace
trace_cache = record {
  get_text = λ k s. ok (some "{}");
  set_text = λ k t. note "OK" "set";
  expire = λ k n. note tt "expire";
  keys_like = λ k s. ok ("hooks:NEW:h1" ∷ []);
  del = λ k. note 1 k;
  get_texts = λ ks s. ok [];
  start_deletions = λ ks s. s;
  flush_all = note "OK" "flush";
  open_connection = note tt "connect";
  quit = note "OK" "quit";
  status = λ s. "ready";
  stringify_error = circular;
}

abbrev pub trace_documents : DocumentDriver Trace
trace_documents = record {
  find_one_in = λ c q s. ok null;
  find_all_in = λ c q s. ok [];
  insert_one_in = λ c v. note (obj (field "insertedId" (str "d1") end)) "insert";
  insert_many_in = λ c vs. note null "insert many";
  update_one_in = λ c q v. note null "update";
  update_many_in = λ c q v. note null "update many";
  delete_one_in = λ c q. note null "delete";
  delete_many_in = λ c q. note null "delete many";
  run = λ v. note null "run";
  collections = λ s. ok [];
  create = λ c. note null "create";
  drop = λ c. note true "drop";
  open_connection = note tt "open";
  close_connection = note tt "close";
}

abbrev pub trace_queue : AwsClient Trace
trace_queue = record {
  send = λ command input. note (obj (field "MessageId" (str "m1") end)) command;
  stringify_error = circular;
}

abbrev pub trace_socket : SocketClient Trace
trace_socket = record { emit = λ event t. note tt event; stringify_error = circular }

abbrev pub trace_server : SocketServer Trace
trace_server = record {
  broadcast_from = λ id event t. note tt event;
  emit_to = λ rooms event t. note tt event;
  join_room = λ id room. note tt "join";
  leave_room = λ id room. note tt "leave";
  close = note tt "close";
  disconnect_sockets = note tt "disconnect";
  fetch_sockets = λ s. ok [];
  stringify_error = circular;
}

abbrev pub trace_hooks : HookServices Trace
trace_hooks = record {
  cache = trace_cache;
  request = λ config. note (obj end) "request";
  new_date = λ s. at_ms 7;
  to_lower_case = λ s. s;
  type_error = circular;
  time_to_live = 30;
  base_url = "url";
}

abbrev pub trace_handler : HandlerServices Trace
trace_handler = record {
  sockets = trace_socket;
  hooks = trace_hooks;
  documents = trace_documents;
  event_schema = λ v. (v, none);
  unprocessed_messages = "unprocessedMessages";
}

abbrev pub trace_consumer : Consumer Trace
trace_consumer = record { handler = trace_handler; queue = trace_queue; queue_url = "q.fifo" }

abbrev pub trace_producer : Producer Trace
trace_producer = record { client = trace_queue; queue_url = "q.fifo"; application_name = "app" }

abbrev pub trace_stores : Stores Trace
trace_stores = record {
  cache = trace_cache;
  documents = record {
    find_document = λ q s. ok null;
    find_documents = λ s. ok [];
    insert_one = λ v. note (str "d1") "insert";
    update_one = λ i v. note tt "update";
    delete_document = λ i. note 1 "delete";
  };
  time_to_live = 30;
}

abbrev pub trace_gateway : Gateway Trace
trace_gateway = record {
  server = some trace_server;
  sockets = trace_server;
  stores = trace_stores;
  producer = trace_producer;
}

abbrev pub fresh_ids : Fresh
fresh_ids = record { message_id = "u1"; deduplication_id = "u2"; timestamp = "iso" }

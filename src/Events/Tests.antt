-- ===== src/Events/Tests.antt =====
-- The theorems on the events with an outside world that notes what is asked of it.
use node_ddd_boilerplate_typ.Base.{[], arith, false, none, refl, some, ◌<◌, ◌↔◌, ◌∷◌, ◌≡◌}
use node_ddd_boilerplate_typ.DataParser.{to_string}
use node_ddd_boilerplate_typ.Effects.{ok, throw}
use node_ddd_boilerplate_typ.Entities.Subscription.{new_subscription}
use node_ddd_boilerplate_typ.Events.Client.{emit_message}
use node_ddd_boilerplate_typ.Events.Consumer.{Consumer, handle_message_batch, on_error}
use node_ddd_boilerplate_typ.Events.Consumer.Counter.{
  Runs-IsSmall, consume_error, no_signal, one_more, run_errors, run_errors-ok_iff,
}
use node_ddd_boilerplate_typ.Events.Consumer.Delivery.{drained, handle_message_batch-drains}
use node_ddd_boilerplate_typ.Events.Consumer.Failure.{handle_message_batch-stops}
use node_ddd_boilerplate_typ.Events.Example.{
  Trace, fresh_ids, reading, trace_consumer, trace_documents, trace_gateway, trace_handler,
  trace_server, trace_socket,
}
use node_ddd_boilerplate_typ.Events.Filter.{build_ws_error_response}
use node_ddd_boilerplate_typ.Events.Handler.{execute, HandlerServices, execute, process_body}
use node_ddd_boilerplate_typ.Events.Laws.{Tells, build_ws_error_response-Tells}
use node_ddd_boilerplate_typ.Events.Producer.{build_message_body}
use node_ddd_boilerplate_typ.Events.Server.{emit_private, handle_connection}
use node_ddd_boilerplate_typ.Events.Server.Laws.{
  connection_event_emitted, emit_private-emit_message, handle_connection-returns,
}
use node_ddd_boilerplate_typ.Exceptions.{Error, contract, exception, plain, with_message, ws}
use node_ddd_boilerplate_typ.Subscriptions.{save_subscription}
use node_ddd_boilerplate_typ.Validation.{SchemaError, schema_error_info, validate_data}
use node_ddd_boilerplate_typ.Value.{Value, at_ms, date, end, field, fields_of, null, obj, put, str}

abbrev message : Value
message = obj (field "Body" (str "{") (field "ReceiptHandle" (str "r1") end))

abbrev event : Value
event = obj (field "payload" (obj (field "event" (str "INVALID") end)) end)

abbrev plain_error : Error
plain_error = record { info = with_message "failed"; origin = plain }

-- The message is broadcast and its hook is pulled and deleted before the message is.
handle_message_batch-drains_example :
    handle_message_batch ⦃p = reading event⦄ trace_consumer (at_ms 9) (message ∷ []) (3, [])
    ≡ (ok tt, (0, drained ⦃p = reading event⦄ trace_consumer (at_ms 9) (message ∷ []) []))
handle_message_batch-drains_example =
    handle_message_batch-drains ⦃p = reading event⦄ trace_consumer (at_ms 9)
      (λ m s. (obj (field "insertedId" (str "d1") end), "insert" ∷ s, refl))
      (λ input s. (obj (field "MessageId" (str "m1") end), "DeleteMessage" ∷ s, refl))
      (message ∷ []) 3 []

Runs-IsSmall_example : 1 < 20
unfolding on_error
Runs-IsSmall_example =
    Runs-IsSmall ⦃p = reading event⦄ trace_consumer (at_ms 9) (0, []) (1, []) (ground arith)
      (one_more (0, []) (1, []) (consume_error plain_error) no_signal refl)

run_errors-ok_iff_example :
    ((run_errors ⦃p = reading event⦄ {S = Trace} (plain_error ∷ plain_error ∷ []) (0, [])).0
      ≡ ok tt)
    ↔ (2 < 20)
run_errors-ok_iff_example =
    run_errors-ok_iff ⦃p = reading event⦄ {S = Trace} (plain_error ∷ plain_error ∷ []) []

emit_private-emit_message_example :
    let sent = obj (field "id" (str "x") (field "socketIdsOrRooms" (str "room") end)) in
    (emit_message ⦃p = reading sent⦄ trace_socket (obj (field "id" (str "x") end)) (str "room") []
      ≡ (ok tt, "emit_private" ∷ []))
    × (emit_private ⦃p = reading sent⦄ trace_gateway (at_ms 9) "{}" [] ≡ (ok tt, "emit" ∷ []))
unfolding to_string
emit_private-emit_message_example =
    let sent = obj (field "id" (str "x") (field "socketIdsOrRooms" (str "room") end)) in
    emit_private-emit_message ⦃p = reading sent⦄ trace_gateway (at_ms 9) trace_socket trace_server
      (str "room") (field "id" (str "x") end) "{}" "{}" [] refl refl refl refl refl

abbrev connection : Value
connection =
    build_message_body "u1" "iso"
      (obj (field "subscriptionId" (str "a") (field "event" (str "NEW_CONNECTION") end)))
      "connection"

-- The schema of events reads the text of a timestamp as a date.
abbrev dated : Value
dated = obj (put "timestamp" (date (at_ms 5)) (fields_of connection))

abbrev dating_handler : HandlerServices Trace
dating_handler = record trace_handler {
  event_schema = λ v. (obj (put "timestamp" (date (at_ms 5)) (fields_of v)), none);
}

connection_event_emitted_example :
    process_body ⦃p = reading connection⦄ dating_handler (at_ms 9) "{}" []
    ≡ emit_message ⦃p = reading connection⦄ trace_socket dated (str "new_connections") []
connection_event_emitted_example =
    connection_event_emitted ⦃p = reading connection⦄ trace_gateway (at_ms 9) dating_handler
      fresh_ids "a" "{}" dated [] refl refl refl

handle_connection-returns_example :
    (handle_connection ⦃p = reading null⦄ trace_gateway (at_ms 9) fresh_ids "a" []).0 ≡ ok tt
unfolding save_subscription to_string
handle_connection-returns_example =
    handle_connection-returns ⦃p = reading null⦄ trace_gateway (at_ms 9) fresh_ids "a"
      (new_subscription ⦃p = reading null⦄ (at_ms 9) null) [] ("expire" ∷ "set" ∷ "insert" ∷ [])
      refl

build_ws_error_response-Tells_example :
    Tells
      (record { info = with_message "bad"; origin = ws (obj (field "name" (str "x") end)) })
      "emit"
      (str "data")
      (build_ws_error_response ⦃p = reading null⦄
        (record { info = with_message "bad"; origin = ws (obj (field "name" (str "x") end)) })
        "emit"
        (str "data")
        "iso")
build_ws_error_response-Tells_example =
    build_ws_error_response-Tells ⦃p = reading null⦄
      (record { info = with_message "bad"; origin = ws (obj (field "name" (str "x") end)) })
      (obj (field "name" (str "x") end)) "emit" (str "data") "iso" refl

abbrev bad_event : SchemaError
bad_event = record {
  error_name = "ValidationError";
  messages = "id" ∷ [];
  error_details = null;
  error_stack = null;
}

-- A consumer that lets no event through and whose store is down.
abbrev broken : Consumer Trace
broken = record trace_consumer {
  handler = record trace_handler {
    event_schema = λ v. (v, some bad_event);
    documents = record trace_documents { insert_one_in = λ c v s. (throw plain_error, "down" ∷ s) };
  };
}

handle_message_batch-stops_example :
    handle_message_batch ⦃p = reading event⦄ broken
      (at_ms 9)
      (obj end ∷ message ∷ message ∷ [])
      (3, [])
    ≡ (throw plain_error, (0, "down" ∷ []))
unfolding handle_message_batch execute validate_data
handle_message_batch-stops_example =
    handle_message_batch-stops ⦃p = reading event⦄ broken (at_ms 9) (obj end ∷ []) (message ∷ [])
      message "{" (exception ⦃p = reading event⦄ contract (schema_error_info bad_event) false)
      plain_error 3 0 [] [] [] ("down" ∷ []) refl refl refl refl refl

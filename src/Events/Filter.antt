-- ===== src/Events/Filter.antt =====
-- src/modules/events/websocket/filters/WebSocketExceptions.filter.ts
-- Capturing the error is that of Exceptions/Filter.
use node_ddd_boilerplate_typ.Base.{Option, String, if◌then◌else◌, none, some, ℕ}
use node_ddd_boilerplate_typ.DataParser.{to_string}
use node_ddd_boilerplate_typ.Exceptions.{Error, Origin, status_of, ws}
use node_ddd_boilerplate_typ.Exceptions.External.{external_error_parser}
use node_ddd_boilerplate_typ.Exceptions.Filter.{name_of}
use node_ddd_boilerplate_typ.Platform.{Platform}
use node_ddd_boilerplate_typ.Value.{
  Fields, Value, end, field, fields_of, is_object, num, put, spread, str, undefined,
}

-- The first `errorResponse`.
abbrev pub base_response : Error → String → Value → String → Fields
base_response e event data' timestamp = field "name" (str (name_of e)) (
    field "message" (str e.message) (
      field "receivedEvent" (str event)
        (field "receivedData" data' (field "timestamp" (str timestamp) end))))

abbrev pub status_value : Option ℕ → Value
status_value none = undefined
status_value (some n) = num n

abbrev pub with_details : Option String → Fields → Option Fields
with_details none base = none
with_details (some t) base = some (put "details" (str t) base)

module _ ⦃p : Platform⦄ where
  -- The branch of an error that is no `WsException`, once it is parsed.
  abbrev pub parsed_ws_response : Error → Fields → Fields
  parsed_ws_response parsed base = put "details" parsed.cause (
      put "code" (status_value (status_of parsed))
        (put "message" (str parsed.message) (put "name" (str (name_of parsed)) base)))

  abbrev pub ws_response_from : Error → Origin → Fields → Option Fields
  ws_response_from e (ws error) base =
      if is_object error
      then some (spread (fields_of error) base)
      else with_details (to_string error) base
  ws_response_from e other base = some (parsed_ws_response (external_error_parser e) base)

  -- `buildWsErrorResponse`, whose event is always "error"; `none` is that it throws.
  unfoldable pub build_ws_error_response : Error → String → Value → String → Option Fields
  build_ws_error_response e event data' timestamp =
      ws_response_from e e.origin (base_response e event data' timestamp)

-- ===== src/Events/Laws.antt =====
-- What the guard of the websockets lets through, and what their error filter answers.
use node_ddd_boilerplate_typ.Base.{
  Bool-cases, Option, String, arith, includes, inl, inr, none, refl, some, true, ◌↔◌, ◌∙◌, ◌≡◌,
}
use node_ddd_boilerplate_typ.DataParser.{to_string}
use node_ddd_boilerplate_typ.Events.Filter.{
  base_response, build_ws_error_response, with_details, ws_response_from,
}
use node_ddd_boilerplate_typ.Events.Guard.{guard_event, has_keys, web_socket_events}
use node_ddd_boilerplate_typ.Exceptions.{Error, ws}
use node_ddd_boilerplate_typ.Exceptions.Filter.{name_of}
use node_ddd_boilerplate_typ.Platform.{Platform}
use node_ddd_boilerplate_typ.Value.{Fields, Value, fields_of, find, is_object, put, spread, str}
use node_ddd_boilerplate_typ.Value.Laws.{find-put}

-- A message passes the guard exactly when its event is one of the seven of the websockets and the
-- message is not empty.
pub guard_event_iff :
    ⦃p : Platform⦄ (event : String) (message : Value)
    → (guard_event event message ≡ none)
      ↔ ((includes web_socket_events event ≡ true) × (has_keys message ≡ true))
unfolding guard_event
guard_event_iff event message = ground arith

spread-base :
    (fs : Fields) (e : Error) (event : String) (data' : Value) (timestamp : String)
    → let r = spread fs (base_response e event data' timestamp) in
      (find "name" r ≡ str (name_of e))
      × (find "receivedEvent" r ≡ str event)
      × (find "receivedData" r ≡ data')
spread-base fs e event data' timestamp =
    let named = put "name" (str (name_of e)) fs in
    let worded = put "message" (str e.message) named in
    let evented = put "receivedEvent" (str event) worded in
    let given = put "receivedData" data' evented in
    (
      find-put "timestamp" "name" (str timestamp) given
          ∙ find-put "receivedData" "name" data' evented
          ∙ find-put "receivedEvent" "name" (str event) worded
          ∙ find-put "message" "name" (str e.message) named
          ∙ find-put "name" "name" (str (name_of e)) fs,
      find-put "timestamp" "receivedEvent" (str timestamp) given
          ∙ find-put "receivedData" "receivedEvent" data' evented
          ∙ find-put "receivedEvent" "receivedEvent" (str event) worded,
      find-put "timestamp" "receivedData" (str timestamp) given
          ∙ find-put "receivedData" "receivedData" data' evented,
    )

-- What an answer says of the message that failed, and of the error.
abbrev pub Tells : Error → String → Value → Option Fields → Type 0
Tells e event data' none = Unit
Tells e event data' (some fs) =
    (find "name" fs ≡ str (name_of e))
    × (find "receivedEvent" fs ≡ str event)
    × (find "receivedData" fs ≡ data')

module _ ⦃p : Platform⦄ where
  with_details-Tells :
      (text : Option String) (e : Error) (event : String) (data' : Value) (timestamp : String)
      → Tells e event data' (with_details text (base_response e event data' timestamp))
  with_details-Tells none e event data' timestamp = tt
  with_details-Tells (some t) e event data' timestamp = (refl, refl, refl)

  ws_response_from-Tells :
      (e : Error) (error : Value) (event : String) (data' : Value) (timestamp : String)
      → Tells e event data' (ws_response_from e (ws error) (base_response e event data' timestamp))
  ws_response_from-Tells e error event data' timestamp = elim (Bool-cases (is_object error)) [
    | inl h ↦ rw h (spread-base (fields_of error) e event data' timestamp)
    | inr h ↦ rw h (with_details-Tells (to_string error) e event data' timestamp)
  ]

  -- The answer to an error of the websockets names the error, the event and the data that it came
  -- from, also where the error is a `WsException` whose own properties have these names.
  pub build_ws_error_response-Tells :
      (e : Error) (error : Value) (event : String) (data' : Value) (timestamp : String)
      → e.origin ≡ ws error
      → Tells e event data' (build_ws_error_response e event data' timestamp)
  unfolding build_ws_error_response
  build_ws_error_response-Tells e error event data' timestamp h =
      rw h (ws_response_from-Tells e error event data' timestamp)

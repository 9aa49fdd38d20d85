-- ===== src/Events/Server/Laws.antt =====
-- How messages pass between the queue, the client and the server of the websockets.
use node_ddd_boilerplate_typ.Base.{String, ap, if◌then◌else◌, none, refl, some, true, ◌∙◌, ◌≡◌}
use node_ddd_boilerplate_typ.DataParser.{to_object, to_string}
use node_ddd_boilerplate_typ.Effects.{Result, bind-ok, ok, or_raise, pure, reads, throw, ◌>>◌}
use node_ddd_boilerplate_typ.Entities.Subscription.{Subscription}
use node_ddd_boilerplate_typ.Events.Client.{SocketClient, broadcast_message, emit_message}
use node_ddd_boilerplate_typ.Events.Handler.{
  HandlerServices, forward_event, process_body, pull_hooks_of,
}
use node_ddd_boilerplate_typ.Events.Producer.{
  EventDispatch, Fresh, Producer, build_message_body, dispatch, or_null,
}
use node_ddd_boilerplate_typ.Events.Server.{
  Gateway, SocketServer, connection_event, emit_private, emit_private_data, emit_to_rooms,
  handle_connection,
}
use node_ddd_boilerplate_typ.Platform.{Platform}
use node_ddd_boilerplate_typ.Subscriptions.{save_subscription}
use node_ddd_boilerplate_typ.Validation.{validate_data, validated}
use node_ddd_boilerplate_typ.Value.{
  Date, Fields, Value, end, field, find, get, null, obj, omit, or_else, put, str, strict_eq, truthy,
}
use node_ddd_boilerplate_typ.Value.Laws.{find-put_same, omit-put}

or_null-returns : {S : Type 0} (x : Result Value × S) → (v : Value) × ((or_null x).0 ≡ ok v)
or_null-returns (ok v, t) = (v, refl)
or_null-returns (throw e, t) = (null, refl)

-- Dispatching an event never throws, whatever the queue does.
pub dispatch-returns :
    ⦃p : Platform⦄ {S : Type 0} (producer : Producer S) (fresh : Fresh) (event : EventDispatch)
    (s : S)
    → (v : Value) × ((dispatch producer fresh event s).0 ≡ ok v)
unfolding dispatch
dispatch-returns producer fresh event s = or_null-returns _

module _ ⦃p : Platform⦄ {S : Type 0} (gateway : Gateway S) (now : Date) where
  emit_private_data-sends :
      (server : SocketServer S) (rooms : Value) (fs : Fields) (content : String) (s : S)
      → gateway.server ≡ some server
      → truthy rooms ≡ true
      → to_string (obj (omit "socketIdsOrRooms" fs)) ≡ some content
      → emit_private_data gateway now (obj (put "socketIdsOrRooms" rooms fs)) s
        ≡ server.emit_to rooms "emit" content s
  emit_private_data-sends server rooms fs content s started given written =
      bind-ok
        (or_raise (to_string (obj (omit "socketIdsOrRooms" (put "socketIdsOrRooms" rooms fs))))
          gateway.sockets.stringify_error)
        (emit_to_rooms gateway now (find "socketIdsOrRooms" (put "socketIdsOrRooms" rooms fs))) s s
        content
        (ap (λ o. or_raise (to_string (obj o)) gateway.sockets.stringify_error s)
            (omit-put "socketIdsOrRooms" rooms fs)
          ∙ ap (λ o. or_raise o gateway.sockets.stringify_error s) written)
      ∙ ap (λ r. emit_to_rooms gateway now r content s) (find-put_same "socketIdsOrRooms" rooms fs)
      ∙ rw (given, started) refl

  -- A message that the subscription service emits to rooms reaches them: if the platform reads back
  -- the text of the message with its rooms, the client sends that text as `emit_private`, and the
  -- server, once it is there, answers that event by emitting to these rooms the text of the message
  -- without the rooms.
  pub emit_private-emit_message :
      (client : SocketClient S) (server : SocketServer S) (rooms : Value) (fs : Fields)
      (text content : String) (s : S)
      → to_string (obj (put "socketIdsOrRooms" rooms fs)) ≡ some text
      → to_object text ≡ obj (put "socketIdsOrRooms" rooms fs)
      → to_string (obj (omit "socketIdsOrRooms" fs)) ≡ some content
      → truthy rooms ≡ true
      → gateway.server ≡ some server
      → (emit_message client (obj fs) rooms s ≡ client.emit "emit_private" text s)
        × (emit_private gateway now text s ≡ server.emit_to rooms "emit" content s)
  unfolding emit_message emit_private
  emit_private-emit_message client server rooms fs text content s sent read written given started =
      (
        bind-ok
            (or_raise (to_string (obj (put "socketIdsOrRooms" rooms fs))) client.stringify_error)
            (client.emit "emit_private") s s text
            (ap (λ o. or_raise o client.stringify_error s) sent),
        ap (λ v. emit_private_data gateway now (or_else v (str text)) s) read
            ∙ emit_private_data-sends server rooms fs content s started given written,
      )

  -- If the subscription of a new socket is saved, its connection is answered, whether the queue takes
  -- the event or not.
  pub handle_connection-returns :
      (fresh : Fresh) (socket_id : String) (saved : Subscription) (s t : S)
      → save_subscription gateway.stores now socket_id
          (obj (field "subscriptionId" (str socket_id) end))
          s
        ≡ (ok saved, t)
      → (handle_connection gateway now fresh socket_id s).0 ≡ ok tt
  unfolding handle_connection
  handle_connection-returns fresh socket_id saved s t save =
      let event = connection_event gateway now socket_id in
      let (v, sent) = dispatch-returns gateway.producer fresh event t in
      ap (λ x. x.0)
        (bind-ok
            (save_subscription gateway.stores now socket_id
              (obj (field "subscriptionId" (str socket_id) end)))
            (λ e. dispatch gateway.producer fresh event >> pure tt) s t saved save
          ∙ bind-ok (dispatch gateway.producer fresh event) (λ e. pure tt) t
              (dispatch gateway.producer fresh event t).1 v
              (ap (λ r. (r, (dispatch gateway.producer fresh event t).1)) sent))

  -- The event that a new connection dispatches is, when the handler gets its text, sent on to the
  -- sockets in the room of new connections: if the platform reads back the text of the event, and the
  -- schema lets it through as an event of the same payload, the message is processed by emitting
  -- that event there, and pulls no hooks.
  pub connection_event_emitted :
      (services : HandlerServices S) (fresh : Fresh) (socket_id text : String) (valid : Value)
      (s : S)
      → let event = connection_event gateway now socket_id in
        let body = build_message_body fresh.message_id fresh.timestamp event.payload event.schema in
        to_object text ≡ body
        → services.event_schema body ≡ (valid, none)
        → get valid "payload" ≡ get body "payload"
        → process_body services now text s
          ≡ emit_message services.sockets valid (str "new_connections") s
  unfolding validate_data
  connection_event_emitted services fresh socket_id text valid s read passed kept =
      bind-ok (reads (λ t. validate_data services.event_schema (to_object text)))
        (forward_event services now) s s valid
        (ap (λ r. (r, s))
          (ap (validate_data services.event_schema) read ∙ ap (λ x. validated x.0 x.1) passed))
      ∙ ap
          (λ payload.
            if strict_eq (get payload "event") (str "NEW_CONNECTION")
            then emit_message services.sockets valid (str "new_connections") s
            else (broadcast_message services.sockets valid
                  >> pull_hooks_of services now (get valid "payload"))
                s)
          kept

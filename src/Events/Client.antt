-- ===== src/Events/Client.antt =====
-- src/modules/events/websocket/client/WebSocket.client.ts, and the methods of
-- src/modules/app/subscription/services/Subscription.service.ts that send through it.
use node_ddd_boilerplate_typ.Base.{String}
use node_ddd_boilerplate_typ.DataParser.{to_string}
use node_ddd_boilerplate_typ.Effects.{Call, or_raise, ◌>>=◌}
use node_ddd_boilerplate_typ.Exceptions.{Error}
use node_ddd_boilerplate_typ.Platform.{Platform}
use node_ddd_boilerplate_typ.Value.{Value, fields_of, obj, put}

-- What the client of the library does; `emit` throws where there is no socket.
pub record SocketClient (S : Type 0) : Type 0 where
  pub emit : String → String → Call S (Unit {0})
  -- The error of `JSON.stringify`.
  pub stringify_error : Error

module _ ⦃p : Platform⦄ {S : Type 0} (client : SocketClient S) where
  -- `send`
  abbrev pub send_event : String → Value → Call S (Unit {0})
  send_event event msg = do
    text ← or_raise (to_string msg) client.stringify_error
    client.emit event text

  -- `SubscriptionService.emit`
  unfoldable pub emit_message : Value → Value → Call S (Unit {0})
  emit_message msg socket_ids_or_rooms =
      send_event "emit_private" (obj (put "socketIdsOrRooms" socket_ids_or_rooms (fields_of msg)))

  -- `SubscriptionService.broadcast`
  unfoldable pub broadcast_message : Value → Call S (Unit {0})
  broadcast_message msg = send_event "broadcast" msg

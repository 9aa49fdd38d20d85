-- ===== src/Events/Server.antt =====
-- src/modules/events/websocket/server/WebSocket.server.ts; lines of log are left out.
pub mod Laws
use node_ddd_boilerplate_typ.Base.{List, Option, String, [], if◌then◌else◌, none, some, true}
use node_ddd_boilerplate_typ.DataParser.{to_object, to_string}
use node_ddd_boilerplate_typ.Effects.{Call, Result, ok, or_raise, pure, reads, ◌>>=◌, ◌>>◌}
use node_ddd_boilerplate_typ.Entities.Subscription.{Subscription}
use node_ddd_boilerplate_typ.Events.Producer.{EventDispatch, Fresh, Producer, dispatch}
use node_ddd_boilerplate_typ.Exceptions.{Error}
use node_ddd_boilerplate_typ.Platform.{Platform}
use node_ddd_boilerplate_typ.Subscriptions.{Stores, delete_subscription, save_subscription}
use node_ddd_boilerplate_typ.Value.{
  Date, Value, bool, end, field, fields_of, get, is_object, obj, omit, or_else, put, str, strict_eq,
  truthy,
}

-- What the server of the library does with a socket, given by its identifier.
pub record SocketServer (S : Type 0) : Type 0 where
  pub broadcast_from : String → String → String → Call S (Unit {0})
  pub emit_to : Value → String → String → Call S (Unit {0})
  pub join_room : String → String → Call S (Unit {0})
  pub leave_room : String → String → Call S (Unit {0})
  pub close : Call S (Unit {0})
  pub disconnect_sockets : Call S (Unit {0})
  pub fetch_sockets : S → Result (List String)
  -- The error of `JSON.stringify`.
  pub stringify_error : Error

-- The parts that the gateway calls. The library may not have given it the server yet.
pub record Gateway (S : Type 0) : Type 0 where
  pub server : Option (SocketServer S)
  pub sockets : SocketServer S
  pub stores : Stores S
  pub producer : Producer S

-- `toObject(message).data ?? message`
abbrev pub format_after_receive : ⦃p : Platform⦄ → String → Value
format_after_receive message = or_else (to_object message) (str message)

-- `call` on the server, if there is one.
abbrev pub with_server :
    {S A : Type 0} → Option (SocketServer S) → A → (SocketServer S → Call S A) → Call S A
with_server none other call = pure other
with_server (some server) other call = call server

module _ ⦃p : Platform⦄ {S : Type 0} (gateway : Gateway S) (now : Date) where
  -- `disconnect`
  abbrev pub close_server : Call S (Unit {0})
  close_server = with_server gateway.server tt (λ server. server.close)

  -- `disconnectAllSockets`
  abbrev pub disconnect_all_sockets : Call S (Unit {0})
  disconnect_all_sockets = with_server gateway.server tt (λ server. server.disconnect_sockets)

  -- `getSocketsIds`
  abbrev pub get_sockets_ids : Call S (List String)
  get_sockets_ids = with_server gateway.server [] (λ server. reads server.fetch_sockets)

  -- The event of a new connection.
  abbrev pub connection_event : String → EventDispatch
  connection_event socket_id = record {
    payload =
        obj (field "subscriptionId" (str socket_id) (field "event" (str "NEW_CONNECTION") end));
    schema = "connection";
    author = "Websocket Server";
    title = "New Client Connected";
  }

  -- `handleConnection`, which is `saveAndDispatchConnection`.
  unfoldable pub handle_connection : Fresh → String → Call S (Unit {0})
  handle_connection fresh socket_id = do
    save_subscription gateway.stores now socket_id
        (obj (field "subscriptionId" (str socket_id) end))
    dispatch gateway.producer fresh (connection_event socket_id)
    pure tt

  -- `handleDisconnect`
  unfoldable pub handle_disconnect : String → Call S (Unit {0})
  handle_disconnect socket_id = do
    gateway.sockets.leave_room socket_id "new_connections"
    delete_subscription gateway.stores now socket_id
    pure tt

  -- Joining or leaving the room of new connections.
  abbrev pub choose_room : String → Subscription → Call S (Unit {0})
  choose_room socket_id subscription s =
      if strict_eq subscription.new_connections_listen (bool true)
      then gateway.sockets.join_room socket_id "new_connections" s
      else gateway.sockets.leave_room socket_id "new_connections" s

  abbrev pub update_with : String → Value → Call S (Unit {0})
  update_with socket_id data' s =
      if is_object data'
      then (do
        subscription ←
            save_subscription gateway.stores now socket_id
              (obj (put "subscriptionId" (str socket_id) (fields_of data')))
        choose_room socket_id subscription)
          s
      else (ok tt, s)

  -- `handleReconnect`, which is `updateConnection`.
  unfoldable pub handle_reconnect : String → String → Call S (Unit {0})
  handle_reconnect socket_id message = update_with socket_id (format_after_receive message)

  -- `broadcast`
  abbrev pub broadcast : String → String → Call S (Unit {0})
  broadcast socket_id msg = gateway.sockets.broadcast_from socket_id "emit" msg

  -- The emission of `emitPrivate`.
  abbrev pub emit_to_rooms : Value → String → Call S (Unit {0})
  emit_to_rooms socket_ids_or_rooms content s =
      if truthy socket_ids_or_rooms
      then with_server gateway.server tt
          (λ server. server.emit_to socket_ids_or_rooms "emit" content) s
      else (ok tt, s)

  abbrev pub emit_private_data : Value → Call S (Unit {0})
  emit_private_data data' = do
    content ←
        or_raise (to_string (obj (omit "socketIdsOrRooms" (fields_of data'))))
          gateway.sockets.stringify_error
    emit_to_rooms (get data' "socketIdsOrRooms") content

  -- `emitPrivate`
  unfoldable pub emit_private : String → Call S (Unit {0})
  emit_private msg = emit_private_data (format_after_receive msg)

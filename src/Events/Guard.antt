-- ===== src/Events/Guard.antt =====
-- src/modules/events/websocket/guards/Events.guard.ts; lines of log are left out.
use node_ddd_boilerplate_typ.Base.{
  Bool, List, Option, String, [], false, if◌then◌else◌, includes, is_empty_text, none, not, some,
  true, ◌||◌, ◌∷◌,
}
use node_ddd_boilerplate_typ.Exceptions.{Error, exception, internal, with_message}
use node_ddd_boilerplate_typ.Platform.{Platform}
use node_ddd_boilerplate_typ.Value.{Value, arr, field, obj, str}

-- The texts of `WebSocketEventsEnum`.
abbrev pub web_socket_events : List String
web_socket_events =
    "connection" ∷ "disconnect" ∷ "reconnect" ∷ "emit" ∷ "error" ∷ "emit_private" ∷ "broadcast" ∷ []

-- `getObjKeys(message).length`: the keys of a text are its indices.
abbrev pub has_keys : Value → Bool
has_keys (str s) = not (is_empty_text s)
has_keys (arr (field k v fs)) = true
has_keys (obj (field k v fs)) = true
has_keys v = false

-- `canActivate` on the event and the message: nothing is in the way, or the exception that it
-- throws inside a `WsException`.
unfoldable pub guard_event : ⦃p : Platform⦄ → String → Value → Option Error
guard_event event message =
    if not (includes web_socket_events event) || not (has_keys message)
    then some (exception internal (with_message "Invalid message") false)
    else none

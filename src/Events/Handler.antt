-- ===== src/Events/Handler.antt =====
-- src/modules/events/queue/handlers/EventsQueue.handler.ts; lines of log are left out.
use node_ddd_boilerplate_typ.Base.{Bool, String, false, if◌then◌else◌, is_empty_text, true}
use node_ddd_boilerplate_typ.DataParser.{to_object}
use node_ddd_boilerplate_typ.Documents.{DocumentDriver, insert_document}
use node_ddd_boilerplate_typ.Effects.{Call, Result, ok, pure, reads, throw, ◌>>=◌, ◌>>◌}
use node_ddd_boilerplate_typ.Events.Client.{SocketClient, broadcast_message, emit_message}
use node_ddd_boilerplate_typ.Platform.{Platform}
use node_ddd_boilerplate_typ.Validation.{Schema, validate_data}
use node_ddd_boilerplate_typ.Value.{Date, Value, get, str, strict_eq}
use node_ddd_boilerplate_typ.Webhooks.{HookServices, pull_hook}

-- The parts that the handler calls.
pub record HandlerServices (S : Type 0) : Type 0 where
  pub sockets : SocketClient S
  pub hooks : HookServices S
  pub documents : DocumentDriver S
  pub event_schema : Schema
  -- The name of the collection of the messages that were not processed.
  pub unprocessed_messages : String

-- `call.catch((err) => log(err))`
abbrev pub logged : {S A : Type 0} → Result A × S → Result (Unit {0}) × S
logged (r, t) = (ok tt, t)

abbrev pub text_of_event : Value → String
text_of_event (str s) = s
text_of_event v = ""

module _ ⦃p : Platform⦄ {S : Type 0} (services : HandlerServices S) (now : Date) where
  -- The pulling of the hooks of an event, whose outcome is only logged.
  abbrev pub pull_hooks_of : Value → Call S (Unit {0})
  pull_hooks_of payload s =
      logged (pull_hook services.hooks now (text_of_event (get payload "event")) payload s)

  -- What is done with a valid event.
  abbrev pub forward_event : Value → Call S (Unit {0})
  forward_event event s =
      if strict_eq (get (get event "payload") "event") (str "NEW_CONNECTION")
      then emit_message services.sockets event (str "new_connections") s
      else (do broadcast_message services.sockets event; pull_hooks_of (get event "payload")) s

  -- The body of the `try`, on the text of the message.
  abbrev pub process_body : String → Call S (Unit {0})
  process_body body = do
    event ← reads (λ s. validate_data services.event_schema (to_object body))
    forward_event event

  -- The body of the `catch`.
  abbrev pub store_unprocessed : Value → Call S Bool
  store_unprocessed message = do
    insert_document services.documents services.unprocessed_messages message
    pure true

  abbrev pub or_store : Value → Result (Unit {0}) × S → Result Bool × S
  or_store message (ok u, t) = (ok true, t)
  or_store message (throw e, t) = store_unprocessed message t

  abbrev pub execute_body : Value → Value → Call S Bool
  execute_body message (str body) s =
      if is_empty_text body then (ok false, s) else or_store message (process_body body s)
  execute_body message body s = (ok false, s)

  -- `execute`; the body of a message is a text or missing.
  unfoldable pub execute : Value → Call S Bool
  execute message = execute_body message (get message "Body")

-- ===== src/Events/Producer.antt =====
-- src/modules/events/queue/producers/EventsQueue.producer.ts; lines of log are left out.
use node_ddd_boilerplate_typ.Aws.{AwsClient}
use node_ddd_boilerplate_typ.Aws.Sqs.{send_message}
use node_ddd_boilerplate_typ.Base.{String, if◌then◌else◌, is_empty_text}
use node_ddd_boilerplate_typ.Effects.{Call, Result, ok, throw}
use node_ddd_boilerplate_typ.Platform.{Platform}
use node_ddd_boilerplate_typ.Value.{Value, end, field, null, num, obj, str}

-- `EventDispatchInterface`, with an empty text for a field that is not given.
pub record EventDispatch : Type 0 where
  pub payload : Value
  pub schema : String
  pub author : String
  pub title : String

-- What the producer is built with.
pub record Producer (S : Type 0) : Type 0 where
  pub client : AwsClient S
  pub queue_url : String
  pub application_name : String

-- `text || other`
abbrev pub text_or_else : String → String → String
text_or_else text other = if is_empty_text text then other else text

-- `buildMessageBody` with the identifier that is generated and the text of the current time.
abbrev pub build_message_body : String → String → Value → String → Value
build_message_body uuid timestamp payload schema = obj (
    field "id" (str uuid) (
      field "schema" (str (text_or_else schema "EVENTS")) (
        field "schemaVersion" (num 1) (
          field "payload" payload
            (field "source" (str "BOILERPLATE") (field "timestamp" (str timestamp) end))))))

-- `try { return result } catch { return null }`
abbrev pub or_null : {S : Type 0} → Result Value × S → Result Value × S
or_null (ok v, t) = (ok v, t)
or_null (throw e, t) = (ok null, t)

-- The identifiers and the time that a call takes from the run time.
pub record Fresh : Type 0 where
  pub message_id : String
  pub deduplication_id : String
  pub timestamp : String

-- `dispatch`
unfoldable pub dispatch :
    ⦃p : Platform⦄ {S : Type 0} → Producer S → Fresh → EventDispatch → Call S Value
dispatch producer fresh event s = or_null (
    send_message producer.client fresh.deduplication_id producer.queue_url
      (text_or_else event.title "New Event") (text_or_else event.author producer.application_name)
      (build_message_body fresh.message_id fresh.timestamp event.payload event.schema) s)

-- ===== src/Events/Consumer.antt =====
-- src/modules/events/queue/consumers/EventsQueue.consumer.ts; lines of log are left out.
pub mod Counter
pub mod Delivery
pub mod Failure
use node_ddd_boilerplate_typ.Aws.{AwsClient}
use node_ddd_boilerplate_typ.Aws.Sqs.{delete_message}
use node_ddd_boilerplate_typ.Base.{
  Bool, List, String, [], concat, false, if◌then◌else◌, ltb, some, suc, ℕ, ◌∷◌,
}
use node_ddd_boilerplate_typ.Documents.{insert_document}
use node_ddd_boilerplate_typ.Effects.{Call, ok, pure, throw, ◌>>=◌, ◌>>◌}
use node_ddd_boilerplate_typ.Events.Handler.{HandlerServices, execute}
use node_ddd_boilerplate_typ.Exceptions.{Error, exception, integration, name_or}
use node_ddd_boilerplate_typ.Platform.{Platform}
use node_ddd_boilerplate_typ.Value.{Date, Value, get, truthy, undefined}

-- The parts that the consumer calls.
pub record Consumer (S : Type 0) : Type 0 where
  pub handler : HandlerServices S
  pub queue : AwsClient S
  pub queue_url : String

-- The outside world with the field `errorsCount`.
abbrev pub Counted : Type 0 → Type 0
Counted S = ℕ × S

-- A call that leaves the counter alone.
abbrev pub uncounted : {S A : Type 0} → Call S A → Call (Counted S) A
uncounted m (n, s) = let (r, t) = m s in (r, (n, t))

abbrev pub set_count : {S : Type 0} → ℕ → Call (Counted S) (Unit {0})
set_count n (m, s) = (ok tt, (n, s))

-- The error that `checkError` throws.
abbrev pub queue_error : ⦃p : Platform⦄ → Error → Error
queue_error error =
    let raised =
      exception integration
        (record {
          name = error.name;
          message = error.message;
          code = undefined;
          details = undefined;
          cause = undefined;
          stack = error.stack;
        })
        false in
    record {
      info = record {
        name = some (concat (name_or raised.name "") ".QueueError");
        message = raised.message;
        code = raised.code;
        details = raised.details;
        cause = raised.cause;
        stack = raised.stack;
      };
      origin = raised.origin;
    }

module _ ⦃p : Platform⦄ {S : Type 0} where
  -- `checkError`
  abbrev pub check_error : Error → Call (Counted S) (Unit {0})
  check_error error (n, s) =
      if ltb n 20 then (ok tt, (n, s)) else (throw (queue_error error), (n, s))

  -- `errorsCount += 1; checkError(error)`
  abbrev pub count_error : Error → Call (Counted S) (Unit {0})
  count_error error (n, s) = check_error error (suc n, s)

  -- `onError`
  unfoldable pub on_error : Error → Call (Counted S) (Unit {0})
  on_error error = count_error error

  -- `onTimeoutError`
  unfoldable pub on_timeout_error : Error → Call (Counted S) (Unit {0})
  on_timeout_error error = count_error error

  module _ (consumer : Consumer S) (now : Date) where
    -- The deletion of a message that is done.
    abbrev pub delete_if : Bool → Value → Call S (Unit {0})
    delete_if done message s =
        if done
        then (do delete_message consumer.queue consumer.queue_url message; pure tt) s
        else (ok tt, s)

    -- The handling of a message of a batch, up to the reset of the counter.
    abbrev pub handle_message : Value → Call S (Unit {0})
    handle_message message = do done ← execute consumer.handler now message; delete_if done message

    -- `handleMessageBatch`
    unfoldable pub handle_message_batch : List Value → Call (Counted S) (Unit {0})
    handle_message_batch [] c = (ok tt, c)
    handle_message_batch (m ∷ ms) c =
        let rest = handle_message_batch ms in (do uncounted (handle_message m); set_count 0; rest) c

    -- The storing and the deletion of `onProcessingError`.
    abbrev pub store_and_delete : Value → Call S (Unit {0})
    store_and_delete message = do
      result ←
          insert_document consumer.handler.documents consumer.handler.unprocessed_messages message
      delete_if (truthy (get result "insertedId")) message

    -- `onProcessingError`
    unfoldable pub on_processing_error : Error → Value → Call (Counted S) (Unit {0})
    on_processing_error error message = do uncounted (store_and_delete message); count_error error

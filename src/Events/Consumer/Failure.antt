-- ===== src/Events/Consumer/Failure.antt =====
-- What becomes of a batch where a message can be neither processed nor stored.
use node_ddd_boilerplate_typ.Base.{
  List, String, [], ap, false, if◌then◌else◌, is_empty_text, refl, sym, true, ℕ, ◌++◌, ◌∙◌, ◌∷◌,
  ◌≡◌,
}
use node_ddd_boilerplate_typ.Documents.{insert_document}
use node_ddd_boilerplate_typ.Effects.{bind-bind, bind-ok, bind-throw, ok, pure, throw, ◌>>=◌, ◌>>◌}
use node_ddd_boilerplate_typ.Events.Consumer.{
  Consumer, delete_if, handle_message, handle_message_batch, set_count, uncounted,
}
use node_ddd_boilerplate_typ.Events.Consumer.Delivery.{handled}
use node_ddd_boilerplate_typ.Events.Handler.{execute, execute_body, or_store, process_body}
use node_ddd_boilerplate_typ.Exceptions.{Error}
use node_ddd_boilerplate_typ.Platform.{Platform}
use node_ddd_boilerplate_typ.Value.{Date, Value, get, str}

module _ ⦃p : Platform⦄ {S : Type 0} (consumer : Consumer S) (now : Date) where
  -- A batch is handled part by part.
  handle_message_batch-append :
      (front back : List Value) (n : ℕ) (s : S)
      → handle_message_batch consumer now (front ++ back) (n, s)
        ≡ (handle_message_batch consumer now front >> handle_message_batch consumer now back) (n, s)
  unfolding handle_message_batch
  handle_message_batch-append [] back n s = refl
  handle_message_batch-append (m ∷ ms) back n s =
      (λ i.
        (uncounted (handle_message consumer now m)
            >>= (λ u c. handle_message_batch-append ms back 0 c.1 i))
          (n, s))
      ∙ sym (
          bind-bind (uncounted (handle_message consumer now m))
            (λ u. set_count 0 >> handle_message_batch consumer now ms)
            (λ u. handle_message_batch consumer now back) (n, s))

  -- Neither processed nor stored, a message is not deleted.
  handle_message-fails :
      (message : Value) (body : String) (e f : Error) (s t u : S)
      → get message "Body" ≡ str body
      → is_empty_text body ≡ false
      → process_body consumer.handler now body s ≡ (throw e, t)
      → insert_document consumer.handler.documents consumer.handler.unprocessed_messages message t
        ≡ (throw f, u)
      → handle_message consumer now message s ≡ (throw f, u)
  unfolding execute
  handle_message-fails message body e f s t u given filled failed not_stored =
      bind-throw (execute consumer.handler now message)
        (λ done. delete_if consumer now done message) s u f
        (ap (λ b. execute_body consumer.handler now message b s) given
          ∙ ap
              (λ b.
                if b
                then (ok false, s)
                else or_store consumer.handler now message
                    (process_body consumer.handler now body s))
              filled
          ∙ ap (or_store consumer.handler now message) failed
          ∙ bind-throw
              (insert_document consumer.handler.documents consumer.handler.unprocessed_messages
                message)
              (λ r. pure true) t u f not_stored)

  stops_at_first :
      (message : Value) (back : List Value) (k : ℕ) (s t : S) (e : Error)
      → handle_message consumer now message s ≡ (throw e, t)
      → handle_message_batch consumer now (message ∷ back) (k, s) ≡ (throw e, (k, t))
  unfolding handle_message_batch
  stops_at_first message back k s t e failed =
      bind-throw (uncounted (handle_message consumer now message))
        (λ u. set_count 0 >> handle_message_batch consumer now back) (k, s) (k, t) e
        (ap (λ x. (x.0, (k, x.1))) failed)

  -- If the messages in front of it are handled, and a message with a body can be neither processed
  -- nor stored, the batch throws the error of the storing, in the state behind that: this message
  -- and those behind it are not deleted from the queue, those behind it are not processed, and the
  -- counter of errors stays.
  pub handle_message_batch-stops :
      (front back : List Value) (message : Value) (body : String) (e f : Error) (n k : ℕ)
      (s t u v : S)
      → handle_message_batch consumer now front (n, s) ≡ (ok tt, (k, t))
      → get message "Body" ≡ str body
      → is_empty_text body ≡ false
      → process_body consumer.handler now body t ≡ (throw e, u)
      → insert_document consumer.handler.documents consumer.handler.unprocessed_messages message u
        ≡ (throw f, v)
      → handle_message_batch consumer now (front ++ message ∷ back) (n, s) ≡ (throw f, (k, v))
  handle_message_batch-stops front back message body e f n k s t u v handled given filled failed
        not_stored =
      handle_message_batch-append front (message ∷ back) n s
      ∙ bind-ok (handle_message_batch consumer now front)
          (λ x. handle_message_batch consumer now (message ∷ back)) (n, s) (k, t) tt handled
      ∙ stops_at_first message back k t v f
          (handle_message-fails message body e f t u v given filled failed not_stored)

-- ===== src/Events/Consumer/Delivery.antt =====
-- What becomes of the messages of a batch.
use node_ddd_boilerplate_typ.Aws
use node_ddd_boilerplate_typ.Aws.{is_success}
use node_ddd_boilerplate_typ.Aws.Sqs.{delete_message, delete_params}
use node_ddd_boilerplate_typ.Base.{
  Bool-cases, List, [], ap, false, if◌then◌else◌, inl, inr, is_empty_text, refl, sym, true, ℕ, ◌∙◌,
  ◌∷◌, ◌≡◌,
}
use node_ddd_boilerplate_typ.Documents.{insert_document}
use node_ddd_boilerplate_typ.Effects.{
  Call, Result, bind-ok, ok, pure, rethrow-ok, throw, ◌>>=◌, ◌>>◌,
}
use node_ddd_boilerplate_typ.Events.Consumer.{
  Consumer, delete_if, handle_message, handle_message_batch, set_count, uncounted,
}
use node_ddd_boilerplate_typ.Events.Handler.{execute, execute_body, or_store, process_body}
use node_ddd_boilerplate_typ.Platform.{Platform}
use node_ddd_boilerplate_typ.Value.{Date, Fields, Value, get, str}

module _ ⦃p : Platform⦄ {S : Type 0} (consumer : Consumer S) (now : Date) where
  -- The specification: a message whose body is not empty is processed; where that fails, it is
  -- stored among the unprocessed messages; then it is deleted from the queue.
  abbrev pub after_storing : Value → Result (Unit {0}) × S → S
  after_storing message (ok u, t) = t
  after_storing message (throw e, t) =
      (insert_document consumer.handler.documents consumer.handler.unprocessed_messages message t).1

  abbrev pub after_deleting : Value → S → S
  after_deleting message t =
      (consumer.queue.send "DeleteMessage" (delete_params consumer.queue_url message) t).1

  abbrev pub drained_one : Value → Value → S → S
  drained_one message (str body) s =
      if is_empty_text body
      then s
      else after_deleting message (after_storing message (process_body consumer.handler now body s))
  drained_one message body s = s

  abbrev pub drained : List Value → S → S
  drained [] s = s
  drained (m ∷ ms) s = let rest = drained ms in rest (drained_one m (get m "Body") s)

  -- The counter after a batch: any message resets it.
  abbrev pub count_after : List Value → ℕ → ℕ
  count_after [] n = n
  count_after (m ∷ ms) n = 0

  -- The store takes every message, and the queue every deletion.
  abbrev pub StoresAll : Type 0
  StoresAll =
      (message : Value) (s : S)
      → (v : Value) × (t : S) × (insert_document consumer.handler.documents
            consumer.handler.unprocessed_messages message s
          ≡ (ok v, t))

  abbrev pub DeletesAll : Type 0
  DeletesAll =
      (input : Fields) (s : S)
      → (v : Value) × (t : S) × (consumer.queue.send "DeleteMessage" input s ≡ (ok v, t))

  count_after-zero : (messages : List Value) → count_after messages 0 ≡ 0
  count_after-zero [] = refl
  count_after-zero (m ∷ ms) = refl

  or_store-ok :
      StoresAll
      → (message : Value) (x : Result (Unit {0}) × S)
      → or_store consumer.handler now message x ≡ (ok true, after_storing message x)
  or_store-ok stores message (ok u, t) = refl
  or_store-ok stores message (throw e, t) =
      let (v, u, stored) = stores message t in
      bind-ok
        (insert_document consumer.handler.documents consumer.handler.unprocessed_messages message)
        (λ r. pure true) t u v stored
      ∙ ap (λ w. (ok true, w)) (sym (ap (λ x. x.1) stored))

  delete_if-ok :
      DeletesAll
      → (message : Value) (s : S)
      → delete_if consumer now true message s ≡ (ok tt, after_deleting message s)
  unfolding delete_message
  delete_if-ok deletes message s =
      let (v, t, sent) = deletes (delete_params consumer.queue_url message) s in
      let answer = is_success (get (get v "$metadata") "httpStatusCode") in
      bind-ok (delete_message consumer.queue consumer.queue_url message) (λ b. pure tt) s t answer
        (rethrow-ok Aws.caught_error
          (consumer.queue.send "DeleteMessage" (delete_params consumer.queue_url message)
            >>= (λ r. pure (is_success (get (get r "$metadata") "httpStatusCode"))))
          s t answer
          (bind-ok (consumer.queue.send "DeleteMessage" (delete_params consumer.queue_url message))
            (λ r. pure (is_success (get (get r "$metadata") "httpStatusCode"))) s t v sent))
      ∙ ap (λ w. (ok tt, w)) (sym (ap (λ x. x.1) sent))

  -- A call of the handler on a body, and the deletion behind it.
  abbrev pub handled : Value → Value → Call S (Unit {0})
  handled message body = do
    done ← execute_body consumer.handler now message body
    delete_if consumer now done message

  handled-ok :
      StoresAll
      → DeletesAll
      → (message body : Value) (s : S)
      → handled message body s ≡ (ok tt, drained_one message body s)
  handled-ok stores deletes message (str body) s = elim (Bool-cases (is_empty_text body)) [
    | inl empty ↦
        bind-ok (execute_body consumer.handler now message (str body))
          (λ done. delete_if consumer now done message) s s false (rw empty refl)
        ∙ rw empty refl
    | inr given ↦
        bind-ok (execute_body consumer.handler now message (str body))
          (λ done. delete_if consumer now done message) s
          (after_storing message (process_body consumer.handler now body s)) true
          (rw given (or_store-ok stores message (process_body consumer.handler now body s)))
        ∙ rw given (
            delete_if-ok deletes message
              (after_storing message (process_body consumer.handler now body s)))
  ]
  handled-ok stores deletes message _ s = refl

  handle_message-ok :
      StoresAll
      → DeletesAll
      → (message : Value) (s : S)
      → handle_message consumer now message s ≡ (ok tt, drained_one message (get message "Body") s)
  unfolding execute
  handle_message-ok stores deletes message s =
      handled-ok stores deletes message (get message "Body") s

  -- As long as the store takes every message and the queue every deletion, a batch is handled to its
  -- end, whatever validation, websockets and hooks come to: every message with a body is processed
  -- or stored, and deleted from the queue, in the order of the batch, and the counter of errors is
  -- reset by any message.
  pub handle_message_batch-drains :
      StoresAll
      → DeletesAll
      → (messages : List Value) (n : ℕ) (s : S)
      → handle_message_batch consumer now messages (n, s)
        ≡ (ok tt, (count_after messages n, drained messages s))
  unfolding handle_message_batch
  handle_message_batch-drains stores deletes [] n s = refl
  handle_message_batch-drains stores deletes (m ∷ ms) n s =
      bind-ok (uncounted (handle_message consumer now m))
        (λ u. set_count 0 >> handle_message_batch consumer now ms) (n, s)
        (n, drained_one m (get m "Body") s) tt
        (ap (λ x. (x.0, (n, x.1))) (handle_message-ok stores deletes m s))
      ∙ handle_message_batch-drains stores deletes ms 0 (drained_one m (get m "Body") s)
      ∙ ap (λ k. (ok tt, (k, drained ms (drained_one m (get m "Body") s)))) (count_after-zero ms)

-- ===== src/Aws/Sent.antt =====
-- That the methods of the clients answer with what the service answered.
use node_ddd_boilerplate_typ.Aws.Cognito
use node_ddd_boilerplate_typ.Aws.{AwsClient, caught_error, required, sent_part}
use node_ddd_boilerplate_typ.Aws.Cognito.{
  create_client, create_user_pool, sent_built, signed_up, user_sign_up,
}
use node_ddd_boilerplate_typ.Aws.S3.{upload_file, create_bucket, upload_file}
use node_ddd_boilerplate_typ.Aws.Sns.{ProtocolType, create_topic, publish_message, subscribe_topic}
use node_ddd_boilerplate_typ.Aws.Sqs.{
  create_queue, message_or_empty, msg_params, send_body, send_message,
}
use node_ddd_boilerplate_typ.Base.{
  Bool-cases, String, ap, false, inl, inr, refl, some, true, ◌∙◌, ◌≡◌,
}
use node_ddd_boilerplate_typ.DataParser.{to_string}
use node_ddd_boilerplate_typ.Effects.{
  Call, Result, bind-post, bind-post_ok, ok, or_raise, pure, rethrow, settle, throw, ◌>>=◌,
}
use node_ddd_boilerplate_typ.Exceptions.{exception, internal, status_of, with_message}
use node_ddd_boilerplate_typ.Platform.{Platform}
use node_ddd_boilerplate_typ.Value.{Fields, Value, get, truthy}

module _ ⦃p : Platform⦄ {S : Type 0} (client : AwsClient S) where
  -- What is answered is the answer to one command of this name: `answer` of what the service sent
  -- back, of which `part` is there. An error is the exception for a failed integration: 503.
  abbrev pub Sent : String → (Value → Value) → (Value → Value) → Result Value × S → Type 0
  Sent command part answer (ok a, u) =
      (input : Fields) × (s : S) × (result : Value) × (client.send command input s ≡ (ok result, u))
      × (truthy (part result) ≡ true)
      × (a ≡ answer result)
  Sent command part answer (throw e, u) = status_of e ≡ some 503

  -- The same in front of the `catch`, where an error may be any.
  abbrev Inner : String → (Value → Value) → (Value → Value) → Result Value × S → Type 0
  Inner command part answer (ok a, u) = Sent command part answer (ok a, u)
  Inner command part answer (throw e, u) = Unit

  settle-Sent :
      (command : String) (part answer : Value → Value) (x : Result Value × S)
      → Inner command part answer x
      → Sent command part answer (settle caught_error x.0 x.1)
  unfolding caught_error exception
  settle-Sent command part answer (ok a, u) h = h
  settle-Sent command part answer (throw e, u) h = refl

  rethrow-Sent :
      (command : String) (part answer : Value → Value) (m : Call S Value) (s : S)
      → Inner command part answer (m s)
      → Sent command part answer (rethrow m caught_error s)
  unfolding rethrow
  rethrow-Sent command part answer m s h = settle-Sent command part answer (m s) h

  required-returned :
      (message : String) (v a : Value) (s u : S)
      → required message v s ≡ (ok a, u)
      → (truthy v ≡ true) × (s ≡ u)
  required-returned message v a s u h = elim (Bool-cases (truthy v)) [
    | inl there ↦
        let g : ◌≡◌ {A = Result Value × S} (ok v, s) (ok a, u) = rw there at h in
        (there, ap (λ x. x.1) g)
    | inr missing ↦
        let e = exception internal (with_message message) false in
        let g : ◌≡◌ {A = Result Value × S} (throw e, s) (ok a, u) = rw missing at h in cc
  ]

  required-Inner :
      (command message : String) (part answer : Value → Value) (input : Fields) (result : Value)
      (s t : S)
      → client.send command input s ≡ (ok result, t)
      → Inner command part answer
          ((required message (part result) >>= (λ x. pure (answer result))) t)
  required-Inner command message part answer input result s t sent =
      bind-post_ok (Inner command part answer) (required message (part result))
        (λ x. pure (answer result)) t
        (λ x u h.
          let (there, same) = required-returned message (part result) x t u h in
          (input, s, result, sent ∙ (λ i. (ok result, same i)), there, refl))
        (λ e u. tt)

  part-Inner :
      (command message : String) (part : Value → Value) (input : Fields) (result : Value) (s t : S)
      → client.send command input s ≡ (ok result, t)
      → Inner command part part (required message (part result) t)
  part-Inner command message part input result s t sent = elim (Bool-cases (truthy (part result))) [
    | inl h ↦ rw h (input, s, result, sent, h, refl)
    | inr h ↦ rw h tt
  ]

  sent_part-Sent :
      (command message : String) (input : Fields) (part : Value → Value) (s : S)
      → Sent command part part (sent_part client command input part message s)
  sent_part-Sent command message input part s =
      rethrow-Sent command part part
        (client.send command input >>= (λ result. required message (part result))) s
        (bind-post_ok (Inner command part part) (client.send command input)
          (λ result. required message (part result)) s
          (λ result t sent. part-Inner command message part input result s t sent) (λ e t. tt))

  sent_built-Sent :
      (command message : String) (input : Fields) (part answer : Value → Value) (s : S)
      → Sent command part answer (sent_built client command input part message answer s)
  sent_built-Sent command message input part answer s =
      rethrow-Sent command part answer
        (client.send command input
          >>= (λ result. required message (part result) >>= (λ x. pure (answer result))))
        s
        (bind-post_ok (Inner command part answer) (client.send command input)
          (λ result. required message (part result) >>= (λ x. pure (answer result))) s
          (λ result t sent. required-Inner command message part answer input result s t sent)
          (λ e t. tt))

  send_message-Sent :
      (uuid queue_url title author : String) (message : Value) (s : S)
      → Sent "SendMessage"
          (λ r. get r "MessageId")
          (λ r. get r "MessageId")
          (send_message client uuid queue_url title author message s)
  unfolding send_message
  send_message-Sent uuid queue_url title author message s =
      let id = (λ (r : Value). get r "MessageId") in
      rethrow-Sent "SendMessage" id id
        (or_raise (to_string (message_or_empty message)) client.stringify_error
          >>= send_body client uuid queue_url title author)
        s
        (bind-post (Inner "SendMessage" id id)
          (or_raise (to_string (message_or_empty message)) client.stringify_error)
          (send_body client uuid queue_url title author) s
          (λ body t.
            bind-post_ok (Inner "SendMessage" id id)
              (client.send "SendMessage" (msg_params uuid queue_url body title author))
              (λ result. required "Message not sended" (get result "MessageId")) t
              (λ result u sent.
                part-Inner "SendMessage" "Message not sended" id
                  (msg_params uuid queue_url body title author) result t u sent)
              (λ e u. tt))
          (λ e t. tt))

  -- Where a method that creates, sends, subscribes, uploads or signs up returns, it has sent its
  -- command and the service has answered; it returns the part of that answer that it is named for,
  -- which is there, or for a client, a user or a sign-up what it makes of the answer; and the service
  -- was asked for nothing else behind that. Every error, also that of an answer without that part,
  -- is thrown as the exception for a failed integration: 503.
  pub answers_of_service :
      (uuid name arn to user_email user_password : String) (protocol : ProtocolType)
      (message destination content : Value) (s : S)
      → let field_of = (λ (k : String) (r : Value). get r k) in
        let inner = (λ (k l : String) (r : Value). get (get r k) l) in
        Sent "CreateQueue" (field_of "QueueUrl") (field_of "QueueUrl") (create_queue client name s)
        × Sent "SendMessage"
            (field_of "MessageId")
            (field_of "MessageId")
            (send_message client uuid arn name to message s)
        × Sent "CreateTopic"
            (field_of "TopicArn")
            (field_of "TopicArn")
            (create_topic client name s)
        × Sent "Subscribe"
            (field_of "SubscriptionArn")
            (field_of "SubscriptionArn")
            (subscribe_topic client protocol arn to s)
        × Sent "Publish"
            (field_of "MessageId")
            (field_of "MessageId")
            (publish_message client uuid arn name protocol to destination s)
        × Sent "CreateBucket"
            (field_of "Location")
            (field_of "Location")
            (create_bucket client name s)
        × Sent "PutObject"
            (field_of "ETag")
            (field_of "ETag")
            (upload_file client name to content destination s)
        × Sent "CreateUserPool"
            (inner "UserPool" "Id")
            (inner "UserPool" "Id")
            (create_user_pool client name s)
        × Sent "CreateUserPoolClient"
            (inner "UserPoolClient" "ClientId")
            (field_of "UserPoolClient")
            (create_client client name arn s)
        × Sent "AdminCreateUser"
            (inner "User" "Username")
            (field_of "User")
            (Cognito.create_user client name arn s)
        × Sent "SignUp"
            (field_of "UserConfirmed")
            signed_up
            (user_sign_up client arn name user_email user_password s)
  unfolding create_queue create_topic subscribe_topic publish_message create_bucket upload_file
      create_user_pool create_client Cognito.create_user user_sign_up
  answers_of_service uuid name arn to user_email user_password protocol message destination content
        s =
      (
        sent_part-Sent _ _ _ (λ r. get r "QueueUrl") s,
        send_message-Sent uuid arn name to message s,
        sent_part-Sent _ _ _ (λ r. get r "TopicArn") s,
        sent_part-Sent _ _ _ (λ r. get r "SubscriptionArn") s,
        sent_part-Sent _ _ _ (λ r. get r "MessageId") s,
        sent_part-Sent _ _ _ (λ r. get r "Location") s,
        sent_part-Sent _ _ _ (λ r. get r "ETag") s,
        sent_part-Sent _ _ _ (λ r. get (get r "UserPool") "Id") s,
        sent_built-Sent _ _ _ (λ r. get (get r "UserPoolClient") "ClientId")
            (λ r. get r "UserPoolClient") s,
        sent_built-Sent _ _ _ (λ r. get (get r "User") "Username") (λ r. get r "User") s,
        sent_built-Sent _ _ _ (λ r. get r "UserConfirmed") signed_up s,
      )

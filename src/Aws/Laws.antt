-- ===== src/Aws/Laws.antt =====
-- What the methods of the clients of the cloud services answer.
use node_ddd_boilerplate_typ.Aws.Cognito
use node_ddd_boilerplate_typ.Aws.{AwsClient, caught_error, is_success, required, sent_part}
use node_ddd_boilerplate_typ.Aws.Cognito.{
  confirm_user_sign_up, create_client, create_user_pool, delete_client, delete_pool_user,
  delete_user_pool, get_user, list_user_pools, user_sign_up,
}
use node_ddd_boilerplate_typ.Aws.S3.{
  create_bucket, delete_bucket, delete_file, download_file, get_file_signed_url,
  put_bucket_notification, upload_file,
}
use node_ddd_boilerplate_typ.Aws.Sns.{
  ProtocolType, create_topic, delete_topic, list_topics, publish_message, subscribe_topic,
  unsubscribe_topic,
}
use node_ddd_boilerplate_typ.Aws.Sqs.{
  create_queue, delete_message, delete_queue, list_queues, message_or_empty, msg_params, send_body,
  send_message,
}
use node_ddd_boilerplate_typ.Base.{
  Bool, Bool-cases, String, arith, inl, inr, refl, some, true, ℕ, ◌<◌, ◌↔◌, ◌≡◌, ◌≤◌,
}
use node_ddd_boilerplate_typ.DataParser.{to_string}
use node_ddd_boilerplate_typ.Effects.{
  Call, Ensures, Result, bind-Ensures, ok, or_raise, rethrow, settle, throw, ◌>>=◌,
}
use node_ddd_boilerplate_typ.Exceptions.{exception, status_of}
use node_ddd_boilerplate_typ.Platform.{Platform}
use node_ddd_boilerplate_typ.Value.{Fields, Value, get, num, truthy}

-- An answer passes a test, and an error is the exception for a failed integration, with status 503.
abbrev pub Answers : {A : Type 0} → (A → Bool) → Result A → Type 0
Answers test (ok a) = test a ≡ true
Answers test (throw e) = status_of e ≡ some 503

abbrev pub any : {A : Type 0} → A → Bool
any a = true

settle-Answers :
    ⦃p : Platform⦄ {S A : Type 0} (test : A → Bool) (r : Result A) (s : S)
    → Ensures (λ a. test a ≡ true) r
    → Answers test (settle caught_error r s).0
unfolding caught_error exception
settle-Answers test (ok a) s h = h
settle-Answers test (throw e) s h = refl

pub rethrow-Answers :
    ⦃p : Platform⦄ {S A : Type 0} (test : A → Bool) (m : Call S A) (s : S)
    → Ensures (λ a. test a ≡ true) (m s).0
    → Answers test (rethrow m caught_error s).0
unfolding rethrow
rethrow-Answers test m s h = settle-Answers test (m s).0 (m s).1 h

any-Ensures : {A : Type 0} (r : Result A) → Ensures (λ a. any a ≡ true) r
any-Ensures (ok a) = refl
any-Ensures (throw e) = tt

required-Ensures :
    ⦃p : Platform⦄ {S : Type 0} (message : String) (v : Value) (s : S)
    → Ensures (λ a. truthy a ≡ true) (required message v s).0
required-Ensures message v s = elim (Bool-cases (truthy v)) [ inl h ↦ rw h h | inr h ↦ rw h tt ]

module _ ⦃p : Platform⦄ {S : Type 0} (client : AwsClient S) where
  sent_part-Answers :
      (command : String) (input : Fields) (part : Value → Value) (message : String) (s : S)
      → Answers truthy (sent_part client command input part message s).0
  sent_part-Answers command input part message s =
      rethrow-Answers truthy
        (client.send command input >>= (λ result. required message (part result))) s
        (bind-Ensures (λ a. truthy a ≡ true) (client.send command input)
          (λ result. required message (part result)) s
          (λ result t. required-Ensures message (part result) t))

  send_message-Answers :
      (uuid queue_url title author : String) (message : Value) (s : S)
      → Answers truthy (send_message client uuid queue_url title author message s).0
  unfolding send_message
  send_message-Answers uuid queue_url title author message s =
      rethrow-Answers truthy
        (or_raise (to_string (message_or_empty message)) client.stringify_error
          >>= send_body client uuid queue_url title author)
        s
        (bind-Ensures (λ a. truthy a ≡ true)
          (or_raise (to_string (message_or_empty message)) client.stringify_error)
          (send_body client uuid queue_url title author) s
          (λ body t.
            bind-Ensures (λ a. truthy a ≡ true)
              (client.send "SendMessage" (msg_params uuid queue_url body title author))
              (λ result. required "Message not sended" (get result "MessageId")) t
              (λ result u. required-Ensures "Message not sended" (get result "MessageId") u)))

  -- The methods that create, send, subscribe or upload answer with a part of the service's result
  -- only where that part is there, and every error, their own included, is thrown as the exception
  -- for a failed integration: 503.
  pub created_parts_answer :
      (uuid name arn to : String) (protocol : ProtocolType) (message destination content : Value)
      (s : S)
      → Answers truthy (create_queue client name s).0
        × Answers truthy (send_message client uuid arn name to message s).0
        × Answers truthy (create_topic client name s).0
        × Answers truthy (subscribe_topic client protocol arn to s).0
        × Answers truthy (publish_message client uuid arn name protocol to destination s).0
        × Answers truthy (create_bucket client name s).0
        × Answers truthy (upload_file client name to content destination s).0
        × Answers truthy (create_user_pool client name s).0
  unfolding create_queue create_topic subscribe_topic publish_message create_bucket upload_file
      create_user_pool
  created_parts_answer uuid name arn to protocol message destination content s = (
    sent_part-Answers _ _ (λ r. get r "QueueUrl") "Queue not created" s,
    send_message-Answers uuid arn name to message s,
    sent_part-Answers _ _ (λ r. get r "TopicArn") "Topic not created" s,
    sent_part-Answers _ _ (λ r. get r "SubscriptionArn") "Not Subscribed in topic" s,
    sent_part-Answers _ _ (λ r. get r "MessageId") "Message not published" s,
    sent_part-Answers _ _ (λ r. get r "Location") "Bucket not created" s,
    sent_part-Answers _ _ (λ r. get r "ETag") "File not uploaded" s,
    sent_part-Answers _ _ (λ r. get (get r "UserPool") "Id") "UserPool not created" s,
  )

  any-Answers : {A : Type 0} (m : Call S A) (s : S) → Answers any (rethrow m caught_error s).0
  any-Answers m s = rethrow-Answers any m s (any-Ensures (m s).0)

  -- The other methods of the clients, but for `getMessages` and `listBuckets`, throw only the
  -- exception for a failed integration: 503.
  pub other_methods_answer :
      (max : ℕ) (a b c d : String) (v : Value) (sign : String → Fields → ℕ → Call S String) (s : S)
      → (Answers any (list_queues client max s).0
          × Answers any (delete_queue client a s).0
          × Answers any (delete_message client a v s).0)
        × (Answers any (list_topics client s).0
            × Answers any (delete_topic client a s).0
            × Answers any (unsubscribe_topic client a s).0)
        × (Answers any (delete_bucket client a s).0
            × Answers any (put_bucket_notification client a v s).0
            × Answers any (download_file client a b s).0
            × Answers any (get_file_signed_url client max sign a b s).0
            × Answers any (delete_file client a b s).0)
        × (Answers any (list_user_pools client max s).0
            × Answers any (delete_user_pool client a s).0
            × Answers any (create_client client a b s).0
            × Answers any (delete_client client a b s).0
            × Answers any (Cognito.create_user client a b s).0
            × Answers any (get_user client a b s).0
            × Answers any (delete_pool_user client a b s).0
            × Answers any (user_sign_up client a b c d s).0
            × Answers any (confirm_user_sign_up client a b s).0)
  unfolding list_queues delete_queue delete_message list_topics delete_topic unsubscribe_topic
      delete_bucket put_bucket_notification download_file get_file_signed_url delete_file
      list_user_pools delete_user_pool create_client delete_client Cognito.create_user get_user
      delete_pool_user user_sign_up confirm_user_sign_up
  other_methods_answer max a b c d v sign s = (
    (any-Answers _ s, any-Answers _ s, any-Answers _ s),
    (any-Answers _ s, any-Answers _ s, any-Answers _ s),
    (any-Answers _ s, any-Answers _ s, any-Answers _ s, any-Answers _ s, any-Answers _ s),
    (
      any-Answers _ s,
      any-Answers _ s,
      any-Answers _ s,
      any-Answers _ s,
      any-Answers _ s,
      any-Answers _ s,
      any-Answers _ s,
      any-Answers _ s,
      any-Answers _ s,
    ),
  )

-- A status is a success exactly from 200 to 299.
pub is_success_iff : (n : ℕ) → (is_success (num n) ≡ true) ↔ ((200 ≤ n) × (n < 300))
is_success_iff n = ground arith

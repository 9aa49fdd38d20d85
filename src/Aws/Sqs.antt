-- ===== src/Aws/Sqs.antt =====
-- src/modules/core/infra/integration/aws/Sqs.client.ts
use node_ddd_boilerplate_typ.Aws.{
  AwsClient, caught_error, contains, flag_text, given_if, required, sent_list, sent_part,
  sent_status,
}
use node_ddd_boilerplate_typ.Base.{Bool, List, String, [], ℕ, ◌∷◌}
use node_ddd_boilerplate_typ.DataParser.{to_string}
use node_ddd_boilerplate_typ.Effects.{Call, ok, or_raise, rethrow, throw, ◌>>=◌}
use node_ddd_boilerplate_typ.Platform.{Platform}
use node_ddd_boilerplate_typ.Value.{
  Fields, Value, arr, end, field, get, null, num, obj, str, undefined,
}

-- `createParams`
abbrev pub create_params : String → Fields
create_params queue_name = field "QueueName" (str queue_name) (
    field "Attributes"
      (obj (
        field "FifoQueue" (flag_text (contains ".fifo" queue_name)) (
          field "DelaySeconds" (str "10") (
            field "MessageRetentionPeriod" (str "3600")
              (field "VisibilityTimeout" (str "20") end)))))
      end)

abbrev pub text_attribute : String → Value
text_attribute text = obj (field "DataType" (str "String") (field "StringValue" (str text) end))

-- `msgParams` with the text of the message and the identifier that is generated for it.
abbrev pub msg_params : String → String → String → String → String → Fields
msg_params uuid queue_url body title author = field "QueueUrl" (str queue_url) (
    field "MessageBody" (str body) (
      field "MessageAttributes"
        (obj (field "title" (text_attribute title) (field "author" (text_attribute author) end)))
        (field "MessageDeduplicationId" (given_if (contains ".fifo" queue_url) (str uuid)) (
          field "MessageGroupId" (given_if (contains ".fifo" queue_url) (str "DefaultGroup"))
            end))))

-- `receiveParam`
abbrev pub receive_param : String → Fields
receive_param queue_url = field "QueueUrl" (str queue_url) (
    field "AttributeNames" (arr (field "0" (str "CreatedTimestamp") end)) (
      field "MessageAttributeNames" (arr (field "0" (str "All") end)) (
        field "MaxNumberOfMessages" (num 10)
          (field "WaitTimeSeconds" (num 0) (field "VisibilityTimeout" (num 10) end)))))

-- The value in a template of text.
abbrev pub in_template : ⦃p : Platform⦄ → Value → String
in_template undefined = "undefined"
in_template null = "null"
in_template (str s) = s
in_template ⦃p⦄ v = p.to_text v

-- The input of `deleteMessage`.
abbrev pub delete_params : ⦃p : Platform⦄ → String → Value → Fields
delete_params queue_url message =
    field "QueueUrl" (str queue_url)
      (field "ReceiptHandle" (str (in_template (get message "ReceiptHandle"))) end)

-- The value that `formatMessageBeforeSend` writes: a missing message is the empty object.
abbrev pub message_or_empty : Value → Value
message_or_empty undefined = obj end
message_or_empty v = v

module _ ⦃p : Platform⦄ {S : Type 0} (client : AwsClient S) where
  -- `listQueues`
  unfoldable pub list_queues : ℕ → Call S (List Value)
  list_queues max = sent_list client "ListQueues" (field "MaxResults" (num max) end) "QueueUrls"

  -- `createQueue`
  unfoldable pub create_queue : String → Call S Value
  create_queue queue_name =
      sent_part client "CreateQueue" (create_params queue_name) (λ r. get r "QueueUrl")
        "Queue not created"

  -- `deleteQueue`
  unfoldable pub delete_queue : String → Call S Bool
  delete_queue queue_url = sent_status client "DeleteQueue" (field "QueueUrl" (str queue_url) end)

  -- The sending of `sendMessage`.
  abbrev pub send_body : String → String → String → String → String → Call S Value
  send_body uuid queue_url title author body = do
    result ← client.send "SendMessage" (msg_params uuid queue_url body title author)
    required "Message not sended" (get result "MessageId")

  -- `sendMessage`
  unfoldable pub send_message : String → String → String → String → Value → Call S Value
  send_message uuid queue_url title author message =
      rethrow
        (do
          body ← or_raise (to_string (message_or_empty message)) client.stringify_error
          send_body uuid queue_url title author body)
        caught_error

  -- `deleteMessage`
  unfoldable pub delete_message : String → Value → Call S Bool
  delete_message queue_url message =
      sent_status client "DeleteMessage" (delete_params queue_url message)

  -- The deletions that `getMessages` starts and whose outcome it does not look at.
  abbrev pub start_deletions : String → List Value → S → S
  start_deletions queue_url [] s = s
  start_deletions queue_url (m ∷ ms) s =
      start_deletions queue_url ms (delete_message queue_url m s).1

  -- `getMessages`
  unfoldable pub get_messages : String → Call S (List Value)
  get_messages queue_url s =
      let (r, t) = sent_list client "ReceiveMessage" (receive_param queue_url) "Messages" s in
      elim r [ ok ms ↦ (ok ms, start_deletions queue_url ms t) | throw e ↦ (throw e, t) ]

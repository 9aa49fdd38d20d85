-- ===== src/Aws/Sns.antt =====
-- src/modules/core/infra/integration/aws/Sns.client.ts
use node_ddd_boilerplate_typ.Aws.{
  AwsClient, contains, flag_text, given_if, sent_list, sent_part, sent_status,
}
use node_ddd_boilerplate_typ.Base.{Bool, List, String}
use node_ddd_boilerplate_typ.Effects.{Call}
use node_ddd_boilerplate_typ.Platform.{Platform}
use node_ddd_boilerplate_typ.Value.{Fields, Value, end, field, get, obj, put, str}

-- `createParams`
abbrev pub topic_params : String → Fields
topic_params topic_name = field "Name" (str topic_name) (
    field "Attributes"
      (obj (
        field "FifoTopic" (flag_text (contains ".fifo" topic_name))
          (field "ContentBasedDeduplication" (flag_text (contains ".fifo" topic_name)) end)))
      end)

-- `protocolType`
pub data ProtocolType : Type 0 where
  to_email to_sms to_http to_https to_sqs to_lambda to_application : ProtocolType

abbrev pub protocol_text : ProtocolType → String
protocol_text to_email = "email"
protocol_text to_sms = "sms"
protocol_text to_http = "http"
protocol_text to_https = "https"
protocol_text to_sqs = "sqs"
protocol_text to_lambda = "lambda"
protocol_text to_application = "application"

-- `subscribeParams`
abbrev pub subscribe_params : ProtocolType → String → String → Fields
subscribe_params protocol topic_arn to =
    field "Protocol" (str (protocol_text protocol))
      (field "TopicArn" (str topic_arn) (field "Endpoint" (str to) end))

-- The data that every protocol publishes.
abbrev pub publish_data : String → String → String → String → Fields
publish_data uuid topic_arn topic_name body = field "TopicArn" (str topic_arn) (
    field "Message" (str body) (
      field "MessageDeduplicationId" (given_if (contains ".fifo" topic_name) (str uuid))
        (field "MessageGroupId" (given_if (contains ".fifo" topic_name) (str "DefaultGroup")) end)))

-- The destination that the protocol adds.
abbrev pub with_destination : ProtocolType → String → Value → Fields → Fields
with_destination to_email topic_arn destination fs = put "Subject" (get destination "subject") fs
with_destination to_sms topic_arn destination fs =
    put "PhoneNumber" (get destination "phoneNumber") fs
with_destination _ topic_arn destination fs =
    put "TargetArn" (str topic_arn) (put "TopicArn" (str topic_arn) fs)

-- `publishParams`; the message is a text, which is its own text.
abbrev pub publish_params : String → String → String → ProtocolType → String → Value → Fields
publish_params uuid topic_arn topic_name protocol message destination =
    with_destination protocol topic_arn destination (publish_data uuid topic_arn topic_name message)

module _ ⦃p : Platform⦄ {S : Type 0} (client : AwsClient S) where
  -- `listTopics`
  unfoldable pub list_topics : Call S (List Value)
  list_topics = sent_list client "ListTopics" end "Topics"

  -- `createTopic`
  unfoldable pub create_topic : String → Call S Value
  create_topic topic_name =
      sent_part client "CreateTopic" (topic_params topic_name) (λ r. get r "TopicArn")
        "Topic not created"

  -- `deleteTopic`
  unfoldable pub delete_topic : String → Call S Bool
  delete_topic topic_arn = sent_status client "DeleteTopic" (field "TopicArn" (str topic_arn) end)

  -- `subscribeTopic`
  unfoldable pub subscribe_topic : ProtocolType → String → String → Call S Value
  subscribe_topic protocol topic_arn to =
      sent_part client "Subscribe" (subscribe_params protocol topic_arn to)
        (λ r. get r "SubscriptionArn") "Not Subscribed in topic"

  -- `unsubscribeTopic`
  unfoldable pub unsubscribe_topic : String → Call S Bool
  unsubscribe_topic subscription_arn =
      sent_status client "Unsubscribe" (field "SubscriptionArn" (str subscription_arn) end)

  -- `publishMessage`
  unfoldable pub publish_message :
      String → String → String → ProtocolType → String → Value → Call S Value
  publish_message uuid topic_arn topic_name protocol message destination =
      sent_part client "Publish"
        (publish_params uuid topic_arn topic_name protocol message destination)
        (λ r. get r "MessageId") "Message not published"

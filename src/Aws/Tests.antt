-- ===== src/Aws/Tests.antt =====
-- The theorems on the clients with a service that answers nothing but a message.
use node_ddd_boilerplate_typ.Aws.Cognito
use node_ddd_boilerplate_typ.Aws.S3
use node_ddd_boilerplate_typ.Aws.Cognito.{create_client, create_user_pool, signed_up, user_sign_up}
use node_ddd_boilerplate_typ.Aws.Laws.{Answers, created_parts_answer}
use node_ddd_boilerplate_typ.Aws.S3.{create_bucket}
use node_ddd_boilerplate_typ.Aws.Sent.{Sent, answers_of_service}
use node_ddd_boilerplate_typ.Aws.Sns.{create_topic, publish_message, subscribe_topic, to_sms}
use node_ddd_boilerplate_typ.Aws.Sqs.{create_queue, send_message}
use node_ddd_boilerplate_typ.Base.{String, []}
use node_ddd_boilerplate_typ.Events.Example.{reading, trace_queue}
use node_ddd_boilerplate_typ.Value.{Value, get, null, truthy}

created_parts :
    Answers truthy (create_queue ⦃p = reading null⦄ trace_queue "q.fifo" []).0
    × Answers truthy
        (send_message ⦃p = reading null⦄ trace_queue "u1" "q.fifo" "q.fifo" "sms" null []).0
    × Answers truthy (create_topic ⦃p = reading null⦄ trace_queue "q.fifo" []).0
    × Answers truthy (subscribe_topic ⦃p = reading null⦄ trace_queue to_sms "q.fifo" "sms" []).0
    × Answers truthy
        (publish_message ⦃p = reading null⦄ trace_queue "u1" "q.fifo" "q.fifo" to_sms "sms" null
          []).0
    × Answers truthy (create_bucket ⦃p = reading null⦄ trace_queue "q.fifo" []).0
    × Answers truthy (S3.upload_file ⦃p = reading null⦄ trace_queue "q.fifo" "sms" null null []).0
    × Answers truthy (create_user_pool ⦃p = reading null⦄ trace_queue "q.fifo" []).0
created_parts =
    created_parts_answer ⦃p = reading null⦄ trace_queue "u1" "q.fifo" "q.fifo" "sms" to_sms null
      null null []

answers_of_service_example :
    let p = reading null in
    let field_of = (λ (k : String) (r : Value). get r k) in
    let inner = (λ (k l : String) (r : Value). get (get r k) l) in
    Sent ⦃p = p⦄ trace_queue "CreateQueue"
      (field_of "QueueUrl")
      (field_of "QueueUrl")
      (create_queue ⦃p = p⦄ trace_queue "q.fifo" [])
    × Sent ⦃p = p⦄ trace_queue "SendMessage"
        (field_of "MessageId")
        (field_of "MessageId")
        (send_message ⦃p = p⦄ trace_queue "u1" "q.fifo" "q.fifo" "sms" null [])
    × Sent ⦃p = p⦄ trace_queue "CreateTopic"
        (field_of "TopicArn")
        (field_of "TopicArn")
        (create_topic ⦃p = p⦄ trace_queue "q.fifo" [])
    × Sent ⦃p = p⦄ trace_queue "Subscribe"
        (field_of "SubscriptionArn")
        (field_of "SubscriptionArn")
        (subscribe_topic ⦃p = p⦄ trace_queue to_sms "q.fifo" "sms" [])
    × Sent ⦃p = p⦄ trace_queue "Publish"
        (field_of "MessageId")
        (field_of "MessageId")
        (publish_message ⦃p = p⦄ trace_queue "u1" "q.fifo" "q.fifo" to_sms "sms" null [])
    × Sent ⦃p = p⦄ trace_queue "CreateBucket"
        (field_of "Location")
        (field_of "Location")
        (create_bucket ⦃p = p⦄ trace_queue "q.fifo" [])
    × Sent ⦃p = p⦄ trace_queue "PutObject"
        (field_of "ETag")
        (field_of "ETag")
        (S3.upload_file ⦃p = p⦄ trace_queue "q.fifo" "sms" null null [])
    × Sent ⦃p = p⦄ trace_queue "CreateUserPool"
        (inner "UserPool" "Id")
        (inner "UserPool" "Id")
        (create_user_pool ⦃p = p⦄ trace_queue "q.fifo" [])
    × Sent ⦃p = p⦄ trace_queue "CreateUserPoolClient"
        (inner "UserPoolClient" "ClientId")
        (field_of "UserPoolClient")
        (create_client ⦃p = p⦄ trace_queue "q.fifo" "q.fifo" [])
    × Sent ⦃p = p⦄ trace_queue "AdminCreateUser"
        (inner "User" "Username")
        (field_of "User")
        (Cognito.create_user ⦃p = p⦄ trace_queue "q.fifo" "q.fifo" [])
    × Sent ⦃p = p⦄ trace_queue "SignUp"
        (field_of "UserConfirmed")
        signed_up
        (user_sign_up ⦃p = p⦄ trace_queue "q.fifo" "q.fifo" "a@b.c" "pw" [])
answers_of_service_example =
    answers_of_service ⦃p = reading null⦄ trace_queue "u1" "q.fifo" "q.fifo" "sms" "a@b.c" "pw"
      to_sms null null null []

-- ===== src/Api/Routes.antt =====
-- src/modules/app/hook/api/controllers/Hook.controller.ts,
-- src/modules/app/subscription/api/controllers/Subscription.controller.ts,
-- src/modules/graphql/connections and src/modules/api/controllers/Default.controller.ts
use node_ddd_boilerplate_typ.Entities.Subscription
use node_ddd_boilerplate_typ.Api.{created_message, not_acceptable_message}
use node_ddd_boilerplate_typ.Base.{
  Bool, List, Option, String, if◌then◌else◌, is_empty_text, map, none, some, true, ℕ,
}
use node_ddd_boilerplate_typ.Effects.{Call, ok, pure, throw, ◌>>=◌, ◌>>◌}
use node_ddd_boilerplate_typ.Entities.Subscription.{Subscription}
use node_ddd_boilerplate_typ.Platform.{Platform}
use node_ddd_boilerplate_typ.Subscriptions.{
  Stores, delete_subscription, get_subscription, list_subscriptions, save_subscription,
}
use node_ddd_boilerplate_typ.Value.{Date, Value, end, field, get, num, obj, str}
use node_ddd_boilerplate_typ.Webhooks.{HookServices, save_hook}

-- An answer with its status.
pub record Answer : Type 0 where
  pub status : ℕ
  pub status_message : String

-- `response.statusMessage ?? message`
abbrev pub message_or : Option String → String → String
message_or none message = message
message_or (some given) message = given

abbrev pub text_in : Value → String
text_in (str s) = s
text_in v = ""

module _ ⦃p : Platform⦄ {S : Type 0} (services : HookServices S) (now : Date) where
  -- `registerEventHook` on the schema of the response: `length` of a missing one throws.
  abbrev pub register_for : String → Option String → Value → Value → Call S Answer
  register_for uuid given query (str hook_schema) s =
      if is_empty_text hook_schema
      then (
        ok (record {
          status = 406;
          status_message = message_or given (not_acceptable_message "Hook event register");
        }),
        s,
      )
      else (do
        save_hook services now uuid hook_schema query
        pure (record {
          status = 201;
          status_message = message_or given (created_message "Hook event register");
        }))
          s
  register_for uuid given query hook_schema s = (throw services.type_error, s)

  -- `registerEventHook`, with the identifier that is generated and the message that the answer
  -- already has.
  unfoldable pub register_event_hook : String → Option String → Value → Call S Answer
  register_event_hook uuid given query = register_for uuid given query (get query "responseSchema")

module _ ⦃p : Platform⦄ {S : Type 0} (stores : Stores S) (now : Date) where
  -- `SubscriptionController.listSubscriptions`
  abbrev pub list_subscriptions_route : Bool → Call S (List Value)
  list_subscriptions_route use_cache = do
    found ← list_subscriptions stores now use_cache
    pure (map (λ e. obj (Subscription.get_attributes e)) found)

  -- `ConnectionService.findAll` and `findConnections`
  abbrev pub find_all_connections : Call S (List Subscription)
  find_all_connections = list_subscriptions stores now true

  -- `ConnectionService.findOne` and `findConnection`
  abbrev pub find_connection : String → Call S Subscription
  find_connection id = get_subscription stores now id

  -- `ConnectionService.create` and `createConnection`
  abbrev pub create_connection : Value → Call S Subscription
  create_connection input =
      save_subscription stores now (text_in (get input "subscriptionId")) input

  -- `ConnectionService.update` and `updateConnection`
  abbrev pub update_connection : Value → Call S Subscription
  update_connection input =
      save_subscription stores now (text_in (get input "subscriptionId")) input

  -- `ConnectionService.remove` and `removeConnection`
  abbrev pub remove_connection : String → Call S Bool
  remove_connection id = delete_subscription stores now id

-- `healthCheck` on the request, its parts and the answer.
abbrev pub health_check : Value → Value → Value → Value → Value → Answer → Value
health_check request headers path_params query_params body answer = obj (
    field "baseUrl" (get request "baseUrl") (
      field "url" (get request "url") (
        field "method" (get request "method") (
          field "headers"
            (obj (
              field "host" (get headers "host") (
                field "connection" (get headers "connection")
                  (field "accept" (get headers "accept") end))))
            (field "pathParams" path_params (
              field "queryParams" query_params (
                field "body" body (
                  field "statusCode" (num answer.status)
                    (field "statusMessage" (str answer.status_message) end)))))))))

-- `healthCheckV1`
abbrev pub health_check_v1 : Value → Answer → Value
health_check_v1 request answer = obj (
    field "baseUrl" (get request "baseUrl")
      (field "method" (get request "method") (field "statusCode" (num answer.status) end)))

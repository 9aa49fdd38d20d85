-- ===== src/Rest.antt =====
-- src/modules/core/infra/integration/rest/AbstractRestClient.client.ts and
-- src/modules/core/infra/providers/RestMockedService.provider.ts; lines of log are left out.
use node_ddd_boilerplate_typ.Base.{String}
use node_ddd_boilerplate_typ.Effects.{Call, pure, rethrow, ◌>>=◌}
use node_ddd_boilerplate_typ.Exceptions.External.{external_error_parser}
use node_ddd_boilerplate_typ.Platform.{Platform}
use node_ddd_boilerplate_typ.Value.{Fields, Value, end, field, get, obj, str, undefined}

-- `{ data, status, headers }` of an answer.
abbrev pub response_parts : Value → Value
response_parts r = obj (
    field "data" (get r "data")
      (field "status" (get r "status") (field "headers" (get r "headers") end)))

-- What is asked of the client library.
abbrev pub request_config : String → String → Value → Value → Fields
request_config method endpoint query body =
    field "method" (str method)
      (field "url" (str endpoint) (field "params" query (field "data" body end)))

module _ ⦃p : Platform⦄ {S : Type 0} (request : Fields → Call S Value) where
  -- `makeRequest`, where `request` is `client.request` of the library.
  unfoldable pub make_request : String → String → Value → Value → Call S Value
  make_request method endpoint query body =
      rethrow
        (do
          answer ← request (request_config method endpoint query body)
          pure (response_parts answer))
        external_error_parser

  -- `get`
  abbrev pub rest_get : String → Value → Call S Value
  rest_get endpoint query = make_request "get" endpoint query undefined

  -- `post`
  abbrev pub rest_post : String → Value → Value → Call S Value
  rest_post endpoint body query = make_request "post" endpoint query body

  -- `put`
  abbrev pub rest_put : String → Value → Value → Call S Value
  rest_put endpoint body query = make_request "put" endpoint query body

  -- `patch`
  abbrev pub rest_patch : String → Value → Value → Call S Value
  rest_patch endpoint body query = make_request "patch" endpoint query body

  -- `delete`
  abbrev pub rest_delete : String → Value → Call S Value
  rest_delete endpoint query = make_request "delete" endpoint query undefined

  -- `healthcheck`
  abbrev pub healthcheck : Call S Value
  healthcheck = do answer ← rest_get "mockedService/api/check" undefined; pure (get answer "data")

  -- `requestHook`
  abbrev pub request_hook : String → String → Value → Value → Call S Value
  request_hook method endpoint query body = do
    answer ← make_request method endpoint query body
    pure (response_parts answer)

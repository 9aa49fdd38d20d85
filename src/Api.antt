-- ===== src/Api.antt =====
-- The interface over HTTP: what runs before a handler, of src/modules/api, and the messages of
-- src/modules/common/constants/HttpMessages.constants.ts. Lines of log are left out.
pub mod Laws
pub mod Routes
pub mod Users
mod Tests
use node_ddd_boilerplate_typ.Base.{
  Bool, List, Option, String, [], concat, false, if◌then◌else◌, ltb, map, none, some, true, ℕ, ◌-◌,
  ◌∷◌,
}
use node_ddd_boilerplate_typ.Cryptography.{NodeCrypto}
use node_ddd_boilerplate_typ.Dates.{seconds_to_milliseconds}
use node_ddd_boilerplate_typ.Effects.{Call, Result, ok, reads, throw, ◌>>=◌, ◌>>◌}
use node_ddd_boilerplate_typ.Exceptions.{
  Error, contract, exception, too_many_requests, with_message,
}
use node_ddd_boilerplate_typ.Guards.{can_activate}
use node_ddd_boilerplate_typ.Objects.{mask_sensitive_data}
use node_ddd_boilerplate_typ.Platform.{Platform}
use node_ddd_boilerplate_typ.Users.Strategy.{UserAuth}
use node_ddd_boilerplate_typ.Value.{
  Date, Value, at_ms, end, field, get, invalid_date, num, obj, or_else, str, truthy, undefined,
}

-- What the throttler's library counts for a key, and the headers of the answer.
pub record Throttler (S : Type 0) : Type 0 where
  -- `storageService.increment(key, ttl)`: the hits in total, and the time to expire.
  pub increment : String → ℕ → Call S (ℕ × ℕ)
  pub set_header : String → Value → S → S
  pub header_prefix : String

-- The settings of a throttler and the key of the request.
pub record Rate : Type 0 where
  pub throttler_name : String
  pub limit : ℕ
  pub ttl : ℕ
  pub tracker : String
  pub key : String

-- The limits of `RequestRateConstants`, per second, ten seconds and minute.
abbrev pub request_rates : List (String × ℕ × ℕ)
request_rates =
    ("short", 3, seconds_to_milliseconds 1)
    ∷ ("medium", 20, seconds_to_milliseconds 10)
    ∷ ("long", 100, seconds_to_milliseconds 60)
    ∷ []

-- Of a request, what the throttler's library tracks it by, and its key by the name of a throttler.
abbrev pub Tracked : Type 0
Tracked = String × (String → String)

-- The throttlers that `ThrottlerModule.forRoot` sets up, for a request.
abbrev pub rates_of : Tracked → List Rate
rates_of (tracker, key_of) =
    map
      (λ (name, limit, ttl). record {
        throttler_name = name;
        limit = limit;
        ttl = ttl;
        tracker = tracker;
        key = key_of name;
      })
      request_rates

-- `request.createdAt` is missing: 999999, else the distance of the two times.
abbrev pub elapsed : ℕ → Option ℕ → ℕ
elapsed response_date_ms none = 999999
elapsed response_date_ms (some created_at) =
    if ltb created_at response_date_ms
    then response_date_ms - created_at
    else created_at - response_date_ms

-- `HttpMessagesConstants.messages`, those that the controllers use.
abbrev pub found_message : String → String
found_message element = concat element " founded successfully."

abbrev pub created_message : String → String
created_message element = concat element " created successfully."

abbrev pub not_acceptable_message : String → String
not_acceptable_message element = concat element " is not acceptable!"

module _ ⦃p : Platform⦄ where
  -- The error of the throttler.
  abbrev pub too_many : Rate → ℕ → ℕ → Error
  too_many rate total_hits time_to_expire =
      exception too_many_requests
        (record {
          name = none;
          message = "Too Many Requests";
          code = undefined;
          details = obj (
              field "key" (str rate.key) (
                field "limit" (num rate.limit) (
                  field "ttl" (num rate.ttl) (
                    field "tracker" (str rate.tracker) (
                      field "timeToExpire" (num time_to_expire)
                        (field "totalHits" (num total_hits) end))))));
          cause = undefined;
          stack = undefined;
        })
        false

  -- `handleRequest` behind the count of the request.
  abbrev pub answer_hits : {S : Type 0} → Throttler S → Rate → ℕ × ℕ → Call S Bool
  answer_hits throttler rate (total_hits, time_to_expire) s =
      if ltb rate.limit total_hits
      then (
        throw (too_many rate total_hits time_to_expire),
        throttler.set_header "Retry-After" (num time_to_expire) s,
      )
      else (
        ok true,
        throttler.set_header (concat throttler.header_prefix (concat "-Reset-" rate.throttler_name))
            (num time_to_expire)
            (throttler.set_header
              (concat throttler.header_prefix (concat "-Remaining-" rate.throttler_name))
              (num (rate.limit - total_hits))
              (throttler.set_header
                (concat throttler.header_prefix (concat "-Limit-" rate.throttler_name))
                (num rate.limit) s)),
      )

  -- `CustomThrottlerGuard.handleRequest`
  unfoldable pub handle_request : {S : Type 0} → Throttler S → Rate → Call S Bool
  handle_request throttler rate = do
    hits ← throttler.increment rate.key rate.ttl
    answer_hits throttler rate hits

  -- The guard of the library, which checks a request by each throttler, in order, until one throws.
  unfoldable pub handle_requests : {S : Type 0} → Throttler S → List Rate → Call S Bool
  handle_requests throttler [] s = (ok true, s)
  handle_requests throttler (rate ∷ rates) s =
      let rest = handle_requests throttler rates in (do handle_request throttler rate; rest) s

  -- A date that is checked.
  abbrev pub checked_date : Date → Result Date
  checked_date (at_ms n) = ok (at_ms n)
  checked_date invalid_date = throw (exception contract (with_message "Invalid date") false)

  -- `ParseDatePipe.transform`; the first argument is `new Date(value)`.
  unfoldable pub parse_date : (Value → Date) → Value → Result Date
  parse_date new_date v =
      if truthy v
      then checked_date (new_date v)
      else throw (exception contract (with_message "Date is required") false)

  -- What runs before a handler that needs a user: the throttlers, the token guard and the validation
  -- of the body, in this order.
  abbrev pub guarded :
      {S A : Type 0}
      → Throttler S
      → Tracked
      → NodeCrypto S
      → Option String
      → Result Value
      → (Option UserAuth → Value → Call S A)
      → Call S A
  guarded throttler tracked node authorization body handler = do
    handle_requests throttler (rates_of tracked)
    user ← reads (λ s. can_activate node authorization)
    data' ← reads (λ s. body)
    handler (some user) data'

-- What `RequestMiddleware.use` puts on the request and into the log: the identifier, the time, and
-- the texts of the path, query and body with their sensitive fields masked; `none` is that writing
-- the text throws.
pub record SeenRequest : Type 0 where
  pub request_id : Value
  pub created_at : ℕ
  pub path_params : Option String
  pub query_params : Option String
  pub seen_body : Option String

abbrev pub masked_text : ⦃p : Platform⦄ → (Value → Option Value) → Value → Option String
masked_text ⦃p⦄ structured_clone v = p.stringify (mask_sensitive_data structured_clone v)

-- `RequestMiddleware.use`, with the identifier that is generated and the current time.
unfoldable pub see_request :
    ⦃p : Platform⦄ → (Value → Option Value) → String → ℕ → Value → SeenRequest
see_request structured_clone uuid now request = record {
  request_id = or_else (get request "id") (str uuid);
  created_at = now;
  path_params = masked_text structured_clone (get request "params");
  query_params = masked_text structured_clone (get request "query");
  seen_body = masked_text structured_clone (get request "body");
}

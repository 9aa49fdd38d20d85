-- ===== src/Exceptions.antt =====
-- src/modules/core/errors/Exceptions.ts, the errors that the program throws and meets.
pub mod External
pub mod Filter
pub mod Laws
mod Tests
use node_ddd_boilerplate_typ.Base.{Bool, Option, String, if◌then◌else◌, none, some, ℕ, ◌*◌}
use node_ddd_boilerplate_typ.Platform.{Platform}
use node_ddd_boilerplate_typ.Value.{
  Value, bool, end, field, null, num, obj, or_else, str, truthy, undefined,
}

-- `ExceptionsEnum`
pub data ExceptionsEnum : Type 0 where
  contract business invalid_token unauthorized too_many_requests : ExceptionsEnum
  conflict not_found integration internal : ExceptionsEnum

-- The texts of `ExceptionsEnum`.
abbrev pub exception_text : ExceptionsEnum → String
exception_text contract = "contract"
exception_text business = "business"
exception_text invalid_token = "invalidToken"
exception_text unauthorized = "unauthorized"
exception_text too_many_requests = "manyRequests"
exception_text conflict = "conflict"
exception_text not_found = "notFound"
exception_text integration = "integration"
exception_text internal = "internal"

-- The members of `HttpStatusEnum` that the exceptions use.
abbrev pub http_status : ExceptionsEnum → ℕ
http_status contract = 400
http_status business = 403
http_status invalid_token = 498
http_status unauthorized = 401
http_status too_many_requests = 429
http_status conflict = 409
http_status not_found = 404
http_status integration = 503
http_status internal = 500

-- The name that each method of `Exceptions` falls back to.
abbrev pub default_name : ExceptionsEnum → String
default_name contract = "Bad Request"
default_name business = "Forbidden"
default_name invalid_token = "Invalid Token"
default_name unauthorized = "Unauthorized"
default_name too_many_requests = "Too Many Requests"
default_name conflict = "Conflict"
default_name not_found = "Not Found"
default_name integration = "Service Unavailable"
default_name internal = "Internal Server Error"

-- `ErrorInterface`
pub record ErrorInterface : Type 0 where
  pub name : Option String
  pub message : String
  pub code : Value
  pub details : Value
  pub cause : Value
  pub stack : Value

-- The class of an error: `HttpException` with its status, response and options, `WsException` with
-- what `getError` returns, `AxiosError` with its status and that of its response, or another.
pub data Origin : Type 0 where
  http : (status : ℕ) (response options : Value) → Origin
  ws : (error : Value) → Origin
  axios : (status response_status : Option ℕ) → Origin
  plain : Origin

-- An error that is thrown; the stack that the run time makes up is left out.
pub record Error : Type 0 where
  pub info : ErrorInterface
  pub open info use *
  pub origin : Origin

-- `{ message }`
abbrev pub with_message : String → ErrorInterface
with_message message = record {
  name = none;
  message = message;
  code = undefined;
  details = undefined;
  cause = undefined;
  stack = undefined;
}

abbrev pub name_or : Option String → String → String
name_or none s = s
name_or (some n) s = n

abbrev text_or : Option String → String → Value
text_or none s = str s
text_or (some t) s = str t

module _ ⦃p : Platform⦄ where
  -- `parseToString`
  pub parse_to_string : Value → Value
  parse_to_string undefined = undefined
  parse_to_string null = undefined
  parse_to_string (str s) = str s
  parse_to_string (bool b) = str (p.to_text (bool b))
  parse_to_string (num n) = str (p.to_text (num n))
  parse_to_string v = text_or (p.stringify v) (p.to_text v)

  -- `buildException`
  pub build_exception :
      (exception_name : String) (status_code : ℕ) (new_exception : Bool)
      (error_name error_message : String) (error_details error_code error_cause error_stack : Value)
      → Error
  unfolding parse_to_string
  build_exception exception_name status_code new_exception error_name error_message error_details
        error_code error_cause error_stack =
      record {
        info = record {
          name = some (if new_exception then error_name else exception_name);
          message = error_message;
          code = undefined;
          details = undefined;
          cause = or_else error_cause error_details;
          stack = if truthy error_stack then error_stack else undefined;
        };
        origin =
            http status_code
              (obj (
                field "error" (str error_name) (
                  field "message" (str error_message) (
                    field "statusCode" (num status_code) (
                      field "code" error_code (
                        field "description" (parse_to_string (or_else error_details error_code)) (
                          field "details" (parse_to_string error_details)
                            (field "cause" (parse_to_string error_cause) end))))))))
              (obj (
                field "description" (parse_to_string error_details)
                  (field "cause" error_cause end)));
      }

  -- The methods of `Exceptions`, one for each kind.
  unfoldable pub exception : ExceptionsEnum → ErrorInterface → Bool → Error
  unfolding build_exception
  exception kind error new_exception =
      build_exception (exception_text kind) (http_status kind) new_exception
        (name_or error.name (default_name kind)) error.message error.details error.code error.cause
        error.stack

-- `exception.getStatus()` of an `HttpException`.
abbrev pub status_of : Error → Option ℕ
status_of e = elim e.origin [
  | http status r o ↦ some status
  | ws w ↦ none
  | axios s r ↦ none
  | plain ↦ none
]

-- ===== src/Exceptions/Filter.antt =====
-- src/modules/core/errors/AbstractExceptions.filter.ts and src/modules/api/filters/HttpExceptions.filter.ts
use node_ddd_boilerplate_typ.Base.{
  Bool, List, Option, String, [], eqb, false, if◌then◌else◌, includes, is_some, map, none, not,
  some, ℕ, ◌&&◌, ◌||◌, ◌∷◌,
}
use node_ddd_boilerplate_typ.Exceptions.{
  Error, Origin, axios, business, conflict, contract, exception_text, http, integration, internal,
  invalid_token, name_or, not_found, status_of, too_many_requests, unauthorized,
}
use node_ddd_boilerplate_typ.Exceptions.External.{external_error_parser}
use node_ddd_boilerplate_typ.Platform.{Platform}
use node_ddd_boilerplate_typ.Value.{
  Date, Fields, Value, date, end, field, fields_of, find, get, is_object, null, obj, or_else, put,
  spread, str, undefined,
}

-- `knownExceptions`
abbrev pub known_exceptions : List String
known_exceptions = map exception_text (
    contract ∷ business ∷ invalid_token ∷ unauthorized ∷ too_many_requests ∷ conflict ∷ not_found
    ∷ integration ∷ internal ∷ [])

-- `exceptionsToIgnore`
abbrev pub exceptions_to_ignore : List String
exceptions_to_ignore =
    exception_text too_many_requests ∷ exception_text invalid_token ∷ exception_text contract ∷ []

-- `errorsToIgnore.includes`: the statuses 429, 498 and 418.
abbrev pub errors_to_ignore : ℕ → Bool
errors_to_ignore status = eqb status 429 || eqb status 498 || eqb status 418

abbrev pub name_of : Error → String
name_of e = name_or e.name ""

-- `shouldIgnoreKnownException`
pub should_ignore_known : Error → Bool
should_ignore_known e =
    is_some (status_of e)
    && includes known_exceptions (name_of e)
    && includes exceptions_to_ignore (name_of e)

abbrev ignored_status : Option ℕ → Bool
ignored_status none = false
ignored_status (some s) = errors_to_ignore s

-- `shouldIgnoreHttpException`
pub should_ignore_http : Error → Bool
should_ignore_http e = ignored_status (status_of e)

abbrev axios_status : Origin → Option ℕ
axios_status (axios s r) = s
axios_status _ = none

-- `shouldIgnoreAxiosError`; the status 0 counts as none, and is not ignored either way.
pub should_ignore_axios : Error → Bool
should_ignore_axios e = ignored_status (axios_status e.origin)

-- `capture`: whether the error goes to the tracker. The log line before it is left out.
unfoldable pub captures : Error → Bool
unfolding should_ignore_known should_ignore_http should_ignore_axios
captures e =
    not (should_ignore_known e) && not (should_ignore_http e) && not (should_ignore_axios e)

-- What `buildHttpErrorResponse` returns; `none` is the `TypeError` of reading a property of a
-- `response` that is absent or null.
pub record HttpErrorResponse : Type 0 where
  pub status : ℕ
  pub response : Fields

abbrev readable : Value → Option Value
readable undefined = none
readable null = none
readable v = some v

-- `excep.response`, that of an HTTP exception or that of a failed request, if its properties can be
-- read.
abbrev pub response_of : Origin → Option Value
response_of (http status response options) = readable response
response_of (axios s (some r)) = some (obj end)
response_of _ = none

-- The first `errorResponse`, from the response of the exception.
abbrev pub first_response : Error → Value → Date → Fields
first_response e response now = field "error" (str (name_of e)) (
    field "name" (or_else (get response "error") (str (name_of e))) (
      field "message" (or_else (get response "message") (str e.message))
        (field "timestamp" (date now) end)))

module _ ⦃p : Platform⦄ where
  -- The branch of an `HttpException`.
  abbrev http_response : Error → ℕ → Value → Fields → HttpErrorResponse
  http_response e status response first = record {
    status = status;
    response = put "cause" e.cause (
        if is_object response
        then spread (fields_of response) first
        else put "details" (str (p.to_text response)) first);
  }

  -- The branch of any other error.
  abbrev parsed_response : Error → Origin → Fields → HttpErrorResponse
  parsed_response e (http status response options) first = record {
    status = status;
    response = put "cause" e.cause (
        put "details" (or_else (get response "details") (find "details" first)) (
          put "description" (or_else (get response "description") (find "description" first))
            first));
  }
  parsed_response e _ first = record { status = 500; response = first }

  -- `buildHttpErrorResponse` behind the read of `excep.response`.
  abbrev build_from : Error → Origin → Fields → HttpErrorResponse
  build_from e (http status response options) first = http_response e status response first
  build_from e other first =
      let parsed = external_error_parser e in parsed_response parsed parsed.origin first

  abbrev pub build_with : Error → Option Value → Date → Option HttpErrorResponse
  build_with e none now = none
  build_with e (some response) now = some (build_from e e.origin (first_response e response now))

  -- `buildHttpErrorResponse`
  unfoldable pub build_http_error_response : Error → Date → Option HttpErrorResponse
  unfolding external_error_parser
  build_http_error_response e now = build_with e (response_of e.origin) now

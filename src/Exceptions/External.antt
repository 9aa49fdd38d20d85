-- ===== src/Exceptions/External.antt =====
-- src/modules/common/utils/externalErrorParser.util.ts
use node_ddd_boilerplate_typ.Base.{Option, eqb, if◌then◌else◌, none, some, true, ℕ}
use node_ddd_boilerplate_typ.Exceptions.{
  Error, ExceptionsEnum, Origin, axios, business, conflict, contract, exception, http, integration,
  internal, invalid_token, not_found, too_many_requests, unauthorized,
}
use node_ddd_boilerplate_typ.Platform.{Platform}

-- `exceptionsMapper`
unfoldable pub exceptions_mapper : ℕ → ExceptionsEnum
exceptions_mapper status =
    if eqb status 400
    then contract
    else if eqb status 403
    then business
    else if eqb status 498
    then invalid_token
    else if eqb status 401
    then unauthorized
    else if eqb status 429
    then too_many_requests
    else if eqb status 409
    then conflict
    else if eqb status 404
    then not_found
    else if eqb status 503
    then integration
    else internal

-- `error.status ?? error.response?.status ?? 500`
abbrev first_status : Option ℕ → Option ℕ → ℕ
first_status (some s) r = s
first_status none (some s) = s
first_status none none = 500

-- The status by which `externalErrorParser` chooses the exception.
abbrev pub external_status : Origin → ℕ
external_status (http status response options) = status
external_status (axios status response_status) = first_status status response_status
external_status _ = 500

-- `externalErrorParser`
unfoldable pub external_error_parser : ⦃p : Platform⦄ → Error → Error
unfolding exceptions_mapper
external_error_parser error =
    exception (exceptions_mapper (external_status error.origin)) error.info true

-- ===== src/Exceptions/Tests.antt =====
-- Runs, and the theorems at concrete errors.
use node_ddd_boilerplate_typ.Base.{false, none, refl, some, true, ◌↔◌, ◌≡◌}
use node_ddd_boilerplate_typ.Exceptions.{
  Error, ErrorInterface, contract, exception, http_status, internal, not_found, plain, status_of,
  with_message,
}
use node_ddd_boilerplate_typ.Exceptions.External.{exceptions_mapper, external_error_parser}
use node_ddd_boilerplate_typ.Exceptions.Filter.{
  HttpErrorResponse, build_http_error_response, captures, name_of,
}
use node_ddd_boilerplate_typ.Exceptions.Laws.{
  build_http_error_response-exception, build_http_error_response-parsed, captures-exception,
  exceptions_mapper_iff, external_error_parser-exception, internal-exception,
}
use node_ddd_boilerplate_typ.Platform.{Platform}
use node_ddd_boilerplate_typ.Value.{at_ms, find, or_else, str, undefined}

abbrev node : Platform
node = record {
  stringify = λ v. some "{}";
  parse = λ t. none;
  to_text = λ v. "text";
  from_iso = λ s. at_ms 0;
  to_upper_case = λ s. s;
  to_iso = λ d. "iso";
}

abbrev missing : ErrorInterface
missing = record (with_message "User not founded by ID!") { details = str "id" }

runs :
    (status_of (exception ⦃p = node⦄ not_found missing false) ≡ some 404)
    × (captures (exception ⦃p = node⦄ not_found missing false) ≡ true)
unfolding exception captures
runs = (refl, refl)

exceptions_mapper_iff_example : (exceptions_mapper 404 ≡ not_found) ↔ (404 ≡ http_status not_found)
exceptions_mapper_iff_example = exceptions_mapper_iff 404 not_found (λ e. cc)

external_error_parser-exception_example :
    let e = exception ⦃p = node⦄ not_found missing false in
    let parsed = external_error_parser ⦃p = node⦄ e in
    (status_of parsed ≡ some 404) × (parsed.name ≡ e.name) × (parsed.message ≡ missing.message)
external_error_parser-exception_example =
    external_error_parser-exception ⦃p = node⦄ not_found missing false

build_http_error_response-exception_example :
    let e = exception ⦃p = node⦄ not_found missing false in
    (r : HttpErrorResponse) × (build_http_error_response ⦃p = node⦄ e (at_ms 5) ≡ some r)
    × (r.status ≡ 404)
    × (find "message" r.response ≡ str missing.message)
    × (find "error" r.response ≡ str (name_of e))
    × (find "name" r.response ≡ str "Not Found")
    × (find "cause" r.response ≡ e.cause)
build_http_error_response-exception_example =
    build_http_error_response-exception ⦃p = node⦄ not_found missing false (at_ms 5)

internal-exception_example :
    let outer =
      exception ⦃p = node⦄ internal (exception ⦃p = node⦄ not_found missing false).info false in
    (status_of outer ≡ some 500)
    × (outer.message ≡ missing.message)
    × (outer.cause ≡ or_else (exception ⦃p = node⦄ not_found missing false).cause undefined)
internal-exception_example = internal-exception ⦃p = node⦄ not_found missing false false

captures-exception_example : captures (exception ⦃p = node⦄ contract missing false) ≡ false
captures-exception_example = captures-exception ⦃p = node⦄ contract missing

abbrev type_error : Error
type_error = record { info = with_message "x is not a function"; origin = plain }

build_http_error_response-parsed_example :
    (r : HttpErrorResponse) × (build_http_error_response ⦃p = node⦄
        (external_error_parser ⦃p = node⦄ type_error)
        (at_ms 5)
      ≡ some r)
    × (r.status ≡ 500)
    × (find "message" r.response ≡ str "x is not a function")
    × (find "cause" r.response ≡ (external_error_parser ⦃p = node⦄ type_error).cause)
    × (build_http_error_response ⦃p = node⦄ type_error (at_ms 5) ≡ none)
unfolding exceptions_mapper
build_http_error_response-parsed_example =
    build_http_error_response-parsed ⦃p = node⦄ type_error (at_ms 5)

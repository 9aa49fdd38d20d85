-- ===== src/Exceptions/Laws.antt =====
-- Which status, name and message an error reaches the client with.
use node_ddd_boilerplate_typ.Base.{
  Bool, ap, arith, false, inl, inr, none, not, refl, some, sym, true, ℕ, ◌↔◌, ◌∙◌, ◌≡◌, ◌≢◌, ◌⊎◌,
}
use node_ddd_boilerplate_typ.Exceptions.{
  Error, ErrorInterface, ExceptionsEnum, contract, default_name, exception, http_status, internal,
  invalid_token, name_or, plain, status_of, too_many_requests,
}
use node_ddd_boilerplate_typ.Exceptions.External.{
  exceptions_mapper, external_error_parser, external_status,
}
use node_ddd_boilerplate_typ.Exceptions.Filter.{
  HttpErrorResponse, build_http_error_response, captures, name_of,
}
use node_ddd_boilerplate_typ.Platform.{Platform}
use node_ddd_boilerplate_typ.Value.{Date, find, or_else, str, undefined}

-- The mapper inverts the statuses of the nine kinds, and every other status is internal.
pub exceptions_mapper-http_status :
    (kind : ExceptionsEnum) → exceptions_mapper (http_status kind) ≡ kind
unfolding exceptions_mapper
exceptions_mapper-http_status contract = refl
exceptions_mapper-http_status _ = refl

http_status_or_internal :
    (s : ℕ) → (http_status (exceptions_mapper s) ≡ s) ⊎ (exceptions_mapper s ≡ internal)
unfolding exceptions_mapper
http_status_or_internal s = ground arith

-- A status is mapped to a kind other than internal exactly when it is the status of that kind.
pub exceptions_mapper_iff :
    (s : ℕ) (kind : ExceptionsEnum)
    → kind ≢ internal
    → (exceptions_mapper s ≡ kind) ↔ (s ≡ http_status kind)
exceptions_mapper_iff s kind other = (
  λ e. elim (http_status_or_internal s) [
    | inl same ↦ sym same ∙ ap http_status e
    | inr none_of_them ↦ absurd (other (sym e ∙ none_of_them))
  ],
  λ e. ap exceptions_mapper e ∙ exceptions_mapper-http_status kind,
)

module _ ⦃p : Platform⦄ (kind : ExceptionsEnum) (info : ErrorInterface) (new_exception : Bool) where
  -- An exception of the program that `externalErrorParser` wraps keeps its kind's status, its
  -- message and its name.
  pub external_error_parser-exception :
      let e = exception kind info new_exception in
      let parsed = external_error_parser e in
      (status_of parsed ≡ some (http_status kind))
      × (parsed.name ≡ e.name)
      × (parsed.message ≡ info.message)
  unfolding external_error_parser exception
  external_error_parser-exception =
      (ap (λ k. some (http_status k)) (exceptions_mapper-http_status kind), refl, refl)

  -- The client of an exception of the program gets the status of its kind, and its message and name.
  pub build_http_error_response-exception :
      (now : Date)
      → let e = exception kind info new_exception in
        (r : HttpErrorResponse) × (build_http_error_response e now ≡ some r)
        × (r.status ≡ http_status kind)
        × (find "message" r.response ≡ str info.message)
        × (find "error" r.response ≡ str (name_of e))
        × (find "name" r.response ≡ str (name_or info.name (default_name kind)))
        × (find "cause" r.response ≡ e.cause)
  unfolding build_http_error_response exception
  build_http_error_response-exception now = (_, refl, refl, refl, refl, refl, refl)

  -- Whatever is thrown on, wrapping it as internal answers 500 with the same message, and the
  -- status of the first exception is lost.
  pub internal-exception :
      (again : Bool)
      → let outer = exception internal (exception kind info new_exception).info again in
        (status_of outer ≡ some 500)
        × (outer.message ≡ info.message)
        × (outer.cause ≡ or_else (exception kind info new_exception).cause undefined)
  unfolding exception
  internal-exception again = (refl, refl, refl)

-- The kinds that are not sent to the tracker.
abbrev pub is_ignored : ExceptionsEnum → Bool
is_ignored contract = true
is_ignored invalid_token = true
is_ignored too_many_requests = true
is_ignored _ = false

-- Of the exceptions of the program, raised under their own names, the tracker gets exactly those
-- that are no contract, token or rate error.
pub captures-exception :
    ⦃p : Platform⦄ (kind : ExceptionsEnum) (info : ErrorInterface)
    → captures (exception kind info false) ≡ not (is_ignored kind)
unfolding captures exception
captures-exception contract info = refl
captures-exception _ info = refl

-- An error that a layer has parsed is answered, whatever it was, with the status of the kind that
-- its own status is mapped to, with its message and with the cause that the parser gives it. An
-- error of the same name and message that is plain and was not parsed makes the filter itself fail.
pub build_http_error_response-parsed :
    ⦃p : Platform⦄ (e : Error) (now : Date)
    → (r : HttpErrorResponse) × (build_http_error_response (external_error_parser e) now ≡ some r)
      × (r.status ≡ http_status (exceptions_mapper (external_status e.origin)))
      × (find "message" r.response ≡ str e.message)
      × (find "cause" r.response ≡ (external_error_parser e).cause)
      × (build_http_error_response (record e { origin = plain }) now ≡ none)
unfolding build_http_error_response external_error_parser exception
build_http_error_response-parsed e now = (_, refl, refl, refl, refl, refl)

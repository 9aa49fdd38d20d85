-- ===== src/Trackers.antt =====
-- src/modules/core/errors/trackers.ts, src/modules/common/utils/packageInfoReader.util.ts and
-- `validateKnownExceptions` of src/modules/core/configs/nestListen.config.ts.
pub mod Laws
mod Tests
use node_ddd_boilerplate_typ.Base.{
  Bool, Option, String, concat, false, if◌then◌else◌, includes, is_empty_text, none, not, some,
  ◌&&◌, ◌==◌,
}
use node_ddd_boilerplate_typ.Effects.{Call, ok, throw}
use node_ddd_boilerplate_typ.Exceptions.{Error, plain}
use node_ddd_boilerplate_typ.Exceptions.Filter.{known_exceptions}
use node_ddd_boilerplate_typ.Platform.{Platform}
use node_ddd_boilerplate_typ.Value.{
  Value, end, field, get, is_null_or_undefined, null, obj, or_else, str, undefined,
}

-- The value in a template text.
unfoldable pub template_text : ⦃p : Platform⦄ → Value → String
template_text undefined = "undefined"
template_text null = "null"
template_text (str s) = s
template_text ⦃p⦄ v = p.to_text v

abbrev pub object_or_empty : Option Value → Value
object_or_empty none = obj end
object_or_empty (some v) = v

-- `readPackageInfo` of what the file holds; `none` is that reading it throws.
unfoldable pub read_package_info : ⦃p : Platform⦄ → Option String → Value
read_package_info none = obj end
read_package_info ⦃p⦄ (some content) = object_or_empty (p.parse content)

-- What `configureTrackers` hands to the error tracker, apart from its constants.
pub record TrackerOptions : Type 0 where
  pub enabled : Bool
  pub environment : String
  pub dsn : String
  pub debug : Bool
  pub release : String

-- `configureTrackers`; `none` is that the package's information cannot be taken apart.
unfoldable pub configure_trackers :
    ⦃p : Platform⦄ → String → String → Option String → Option TrackerOptions
configure_trackers environment dsn content =
    let info = read_package_info content in
    if is_null_or_undefined info
    then none
    else some (record {
      enabled = environment == "prod";
      environment = environment;
      dsn = dsn;
      debug = environment == "hml";
      release =
          concat (template_text (get info "name"))
            (concat "@" (template_text (get info "version")));
    })

-- `formatGraphQlError`
unfoldable pub format_graphql_error : Value → Value → Value
format_graphql_error formatted error = obj (
    field "message" (or_else (get formatted "message") (get error "message")) (
      field "path" (or_else (get formatted "path") (get error "path")) (
        field "extensions"
          (obj (
            field "code" (get (get formatted "extensions") "code")
              (field "originalError" (get (get formatted "extensions") "originalError") end)))
          end)))

-- `error?.name && !knownExceptions.includes(error.name)`
unfoldable pub has_unknown_name : Error → Bool
has_unknown_name e = elim e.info.name [
  | none ↦ false
  | some name ↦ not (is_empty_text name) && not (includes known_exceptions name)
]

-- `newError`
unfoldable pub new_error : Error → Error
new_error e = record {
  info = record {
    name = e.info.name;
    message = e.info.message;
    code = undefined;
    details = undefined;
    cause = undefined;
    stack = e.info.stack;
  };
  origin = plain;
}

-- `validateKnownExceptions`, where `capture` is what the error tracker does.
unfoldable pub validate_known_exceptions :
    {S : Type 0} → (Error → S → S) → Error → Call S (Unit {0})
validate_known_exceptions capture e s =
    if has_unknown_name e then (throw (new_error e), capture (new_error e) s) else (ok tt, s)

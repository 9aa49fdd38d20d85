-- ===== src/Trackers/Tests.antt =====
-- A start that fails, and the options of the error tracker.
use node_ddd_boilerplate_typ.Base.{false, none, refl, some, suc, true, ℕ, ◌≡◌}
use node_ddd_boilerplate_typ.Effects.{ok, throw}
use node_ddd_boilerplate_typ.Exceptions.{Error, conflict, exception, with_message}
use node_ddd_boilerplate_typ.Trackers.{
  configure_trackers, format_graphql_error, new_error, read_package_info, template_text,
  validate_known_exceptions,
}
use node_ddd_boilerplate_typ.Trackers.Laws.{validate_known_exceptions-exception}
use node_ddd_boilerplate_typ.Users.Example.{platform}
use node_ddd_boilerplate_typ.Value.{end, field, get, is_null_or_undefined, obj, str}

-- A tracker that counts the errors.
abbrev tally : Error → ℕ → ℕ
tally e n = suc n

validate_known_exceptions-exception_example :
    let e = exception ⦃p = platform⦄ conflict (with_message "taken") true in
    (validate_known_exceptions tally
        (exception ⦃p = platform⦄ conflict (with_message "taken") false)
        3
      ≡ (ok tt, 3))
    × (validate_known_exceptions tally e 3 ≡ (throw (new_error e), 4))
    × ((new_error e).info.name ≡ some "Conflict")
    × ((new_error e).info.message ≡ "taken")
validate_known_exceptions-exception_example =
    validate_known_exceptions-exception ⦃p = platform⦄ tally conflict (with_message "taken") 3 refl
      refl

-- Without a readable package file the release has no name and no version.
release_without_package :
    configure_trackers ⦃p = platform⦄ "prod" "" none
    ≡ some (record {
      enabled = true;
      environment = "prod";
      dsn = "";
      debug = false;
      release = "undefined@undefined";
    })
unfolding configure_trackers read_package_info template_text is_null_or_undefined
release_without_package = refl

message_kept :
    get
      (format_graphql_error
        (obj (field "message" (str "no") end))
        (obj (field "message" (str "other") end)))
      "message"
    ≡ str "no"
unfolding format_graphql_error
message_kept = refl

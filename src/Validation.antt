-- ===== src/Validation.antt =====
-- src/modules/common/utils/validators/SchemaValidator.validator.ts over the schemas of a library;
-- its line of log is left out.
use node_ddd_boilerplate_typ.Base.{List, Option, String, concat, false, join, none, some}
use node_ddd_boilerplate_typ.Effects.{Result, ok, throw}
use node_ddd_boilerplate_typ.Exceptions.{ErrorInterface, contract, exception}
use node_ddd_boilerplate_typ.Platform.{Platform}
use node_ddd_boilerplate_typ.Value.{Value, undefined}

-- The error of the library's `validate`, with the message of each detail.
pub record SchemaError : Type 0 where
  pub error_name : String
  pub messages : List String
  pub error_details : Value
  pub error_stack : Value

-- `schema.validate(data)`: the value that it makes of the data, and the error, if there is one.
abbrev pub Schema : Type 0
Schema = Value → Value × Option SchemaError

-- `{ message, stack, details }` of the exception.
abbrev pub schema_error_info : SchemaError → ErrorInterface
schema_error_info e = record {
  name = none;
  message = concat e.error_name (concat ": " (join ", " e.messages));
  code = undefined;
  details = e.error_details;
  cause = undefined;
  stack = e.error_stack;
}

abbrev pub validated : ⦃p : Platform⦄ → Value → Option SchemaError → Result Value
validated v none = ok v
validated v (some e) = throw (exception contract (schema_error_info e) false)

-- `SchemaValidator.validate`
unfoldable pub validate_data : ⦃p : Platform⦄ → Schema → Value → Result Value
validate_data schema data' = let (v, e) = schema data' in validated v e

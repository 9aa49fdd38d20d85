-- ===== src/Platform.antt =====
-- What the program takes from the language's run time and from the date library.
use node_ddd_boilerplate_typ.Base.{Option, String}
use node_ddd_boilerplate_typ.Value.{Date, Value}

-- The model is over any such platform.
pub record Platform : Type 0 where
  -- `JSON.stringify`; `none` is that it throws.
  pub stringify : Value → Option String
  -- `JSON.parse`; `none` is that it throws.
  pub parse : String → Option Value
  -- `value.toString()`
  pub to_text : Value → String
  -- `fromISOToDateTime` and `fromDateTimeToJSDate`, which are the date library's `fromISO` in the
  -- time zone of the application.
  pub from_iso : String → Date
  -- `text.toUpperCase()`
  pub to_upper_case : String → String
  -- `fromDateTimeToISO` of the date in the time zone of the application.
  pub to_iso : Date → String

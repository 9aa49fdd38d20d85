-- ===== src/Value/Json.antt =====
-- What a value has become when its text in JSON is read again.
use node_ddd_boilerplate_typ.Base.{String, ℕ}
use node_ddd_boilerplate_typ.Value.{
  Date, Fields, Value, arr, at_ms, bool, date, end, field, invalid_date, null, num, obj, str,
  undefined,
}

-- The text of a date, of which `toISOString` is the argument; an invalid date becomes null.
abbrev pub json_date : (ℕ → String) → Date → Value
json_date iso (at_ms n) = str (iso n)
json_date iso invalid_date = null

unfoldable mutual
  -- `JSON.parse(JSON.stringify(value))`: dates are texts, and properties that are undefined are gone,
  -- as elements of an array they are null.
  pub json : (ℕ → String) → Value → Value
  json iso undefined = null
  json iso null = null
  json iso (bool b) = bool b
  json iso (num n) = num n
  json iso (str s) = str s
  json iso (date d) = json_date iso d
  json iso (arr fs) = arr (json_items iso fs)
  json iso (obj fs) = obj (json_fields iso fs)

  pub json_items : (ℕ → String) → Fields → Fields
  json_items iso end = end
  json_items iso (field k v fs) = field k (json iso v) (json_items iso fs)

  pub json_fields : (ℕ → String) → Fields → Fields
  json_fields iso end = end
  json_fields iso (field k undefined fs) = json_fields iso fs
  json_fields iso (field k v fs) = field k (json iso v) (json_fields iso fs)

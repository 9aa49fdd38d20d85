-- ===== src/Objects.antt =====
-- src/modules/common/utils/objectRecursiveFunctions.util.ts, and the masking of the request log in
-- src/modules/api/middlewares/Request.middleware.ts.
pub mod Paths
pub mod Check
pub mod Replace
pub mod Clone
pub mod Mask
mod Tests
use node_ddd_boilerplate_typ.Base.{
  Bool, List, Option, String, [], false, if◌then◌else◌, includes, none, some, true, ◌||◌, ◌∷◌,
}
use node_ddd_boilerplate_typ.Value.{
  Fields, Value, arr, date, end, field, find, is_null_or_undefined, is_object, is_undefined, keys,
  null, obj, put, str, undefined,
}

-- `payloadKeys.some((key) => fieldsToApply.includes(key))`
abbrev pub any_listed : List String → List String → Bool
any_listed names [] = false
any_listed names (k ∷ ks) = includes names k || any_listed names ks

-- `checkFieldsExistence`; `last_nested` is the `forEach` loop over the nested objects, in which each
-- object overwrites the result.
mutual
  pub check_fields_existence : List String → Value → Bool
  check_fields_existence names (arr fs) = any_listed names (keys fs) || last_nested names false fs
  check_fields_existence names (obj fs) = any_listed names (keys fs) || last_nested names false fs
  check_fields_existence names _ = false

  pub last_nested : List String → Bool → Fields → Bool
  last_nested names result end = result
  last_nested names result (field k v fs) =
      last_nested names (if is_object v then check_fields_existence names v else result) fs

-- The `callback` of `replaceFields`: the listed properties that are defined get the value.
abbrev pub overwrite : List String → Value → Fields → Fields
overwrite [] r fs = fs
overwrite (n ∷ names) r fs = overwrite names r (if is_undefined (find n fs) then fs else put n r fs)

-- An object after a call of `replaceFields` on it: first the nested objects, then its own fields.
mutual
  pub replace_in : List String → Value → Value → Value
  replace_in names r (arr fs) = arr (overwrite names r (replace_nested names r fs))
  replace_in names r (obj fs) = obj (overwrite names r (replace_nested names r fs))
  replace_in names r v = v

  pub replace_nested : List String → Value → Fields → Fields
  replace_nested names r end = end
  replace_nested names r (field k v fs) = field k (replace_in names r v) (replace_nested names r fs)

-- `replaceFields`
pub replace_fields : Value → List String → Value → Value
replace_fields v names r = if is_null_or_undefined v then null else replace_in names r v

abbrev or_copy : Option Value → Value → Value
or_copy none copy = copy
or_copy (some v) copy = v

-- `typeof value === 'object' && !!value && !Array.isArray(value)`
abbrev pub is_plain : Value → Bool
is_plain (date d) = true
is_plain (obj fs) = true
is_plain _ = false

-- `cloneObject`, over the platform's `structuredClone`, for which `none` is that it throws.
mutual
  pub clone_object : (Value → Option Value) → Value → Value
  clone_object structured_clone (arr fs) =
      or_copy (structured_clone (arr fs)) (obj (clone_fields structured_clone fs))
  clone_object structured_clone (obj fs) =
      or_copy (structured_clone (obj fs)) (obj (clone_fields structured_clone fs))
  clone_object structured_clone v = or_copy (structured_clone v) (obj end)

  pub clone_fields : (Value → Option Value) → Fields → Fields
  clone_fields structured_clone end = end
  clone_fields structured_clone (field k v fs) =
      field k (if is_plain v then clone_object structured_clone v else v)
        (clone_fields structured_clone fs)

-- `sensitiveDataFields`
abbrev pub sensitive_data_fields : List String
sensitive_data_fields = "password" ∷ "newPassword" ∷ "cvv" ∷ "pin" ∷ []

abbrev pub default_object : Value → Value
default_object undefined = obj end
default_object v = v

-- `RequestMiddleware.maskSensitiveData`
pub mask_sensitive_data : (Value → Option Value) → Value → Value
mask_sensitive_data structured_clone data' =
    let given = default_object data' in
    if check_fields_existence sensitive_data_fields given
    then replace_fields (clone_object structured_clone given) sensitive_data_fields (str "***")
    else given

-- ===== src/Value.antt =====
-- The values of the language, and src/modules/common/utils/dataValidations.util.ts.
-- A number is a natural number; an array is an object whose keys are its indices. Functions,
-- symbols, inherited properties and the indices of a text are left out.
pub mod Json
pub mod Laws
use node_ddd_boilerplate_typ.Base.{
  Bool, List, String, [], eqb, false, if◌then◌else◌, is_empty_text, not, true, ℕ, ◌==◌, ◌∷◌,
}

-- A `Date`: milliseconds since the epoch, or the invalid date.
pub data Date : Type 0 where
  at_ms : ℕ → Date
  invalid_date : Date

mutual
  pub data Value : Type 0 where
    undefined null : Value
    bool : Bool → Value
    num : ℕ → Value
    str : String → Value
    date : Date → Value
    arr obj : Fields → Value

  pub data Fields : Type 0 where
    end : Fields
    field : String → Value → Fields → Fields

-- `isNullOrUndefined`
unfoldable pub is_null_or_undefined : Value → Bool
is_null_or_undefined undefined = true
is_null_or_undefined null = true
is_null_or_undefined _ = false

-- The value as a condition: `if (value)`, `!!value`.
abbrev pub truthy : Value → Bool
truthy undefined = false
truthy null = false
truthy (bool b) = b
truthy (num n) = not (eqb n 0)
truthy (str s) = not (is_empty_text s)
truthy _ = true

-- `value === undefined`
abbrev pub is_undefined : Value → Bool
is_undefined undefined = true
is_undefined _ = false

-- `value && typeof value === 'object'`
abbrev pub is_object : Value → Bool
is_object (date d) = true
is_object (arr fs) = true
is_object (obj fs) = true
is_object _ = false

-- `a === b`, where `a` is no object: objects are equal only to themselves, which the model does not
-- see, so the answer on them is false.
abbrev pub strict_eq : Value → Value → Bool
strict_eq undefined undefined = true
strict_eq null null = true
strict_eq (bool true) (bool b) = b
strict_eq (bool false) (bool b) = not b
strict_eq (num a) (num b) = eqb a b
strict_eq (str a) (str b) = a == b
strict_eq _ _ = false

-- `value?.length` as a condition, for a text; nothing else that the program asks has a length.
abbrev pub has_length : Value → Bool
has_length (str s) = not (is_empty_text s)
has_length _ = false

-- `a ?? b`
abbrev pub or_else : Value → Value → Value
or_else undefined b = b
or_else null b = b
or_else a _ = a

-- The own properties of a value.
abbrev pub fields_of : Value → Fields
fields_of (arr fs) = fs
fields_of (obj fs) = fs
fields_of _ = end

abbrev pub find : String → Fields → Value
find k end = undefined
find k (field j v fs) = if j == k then v else find k fs

-- `value?.key`
abbrev pub get : Value → String → Value
get v k = find k (fields_of v)

-- `object[key] = value`
abbrev pub put : String → Value → Fields → Fields
put k v end = field k v end
put k v (field j w fs) = if j == k then field j v fs else field j w (put k v fs)

-- `{ ...base, ...extra }`
abbrev pub spread : Fields → Fields → Fields
spread base end = base
spread base (field k v fs) = spread (put k v base) fs

-- `const { key: _, ...rest } = object`
abbrev pub omit : String → Fields → Fields
omit k end = end
omit k (field j v fs) = if j == k then omit k fs else field j v (omit k fs)

abbrev pub keys : Fields → List String
keys end = []
keys (field k v fs) = k ∷ keys fs

abbrev pub values : Fields → List Value
values end = []
values (field k v fs) = v ∷ values fs

abbrev has_no_field : Fields → Bool
has_no_field end = true
has_no_field (field k v fs) = false

-- `isEmpty`
pub is_empty : Value → Bool
is_empty (str s) = is_empty_text s
is_empty (arr fs) = has_no_field fs
is_empty (obj fs) = has_no_field fs
is_empty _ = true

-- `getObjKeys`
unfoldable pub get_obj_keys : Value → List String
unfolding is_null_or_undefined
get_obj_keys v = if is_null_or_undefined v then [] else keys (fields_of v)

-- `getObjValues`
unfoldable pub get_obj_values : Value → List Value
unfolding is_null_or_undefined
get_obj_values v = if is_null_or_undefined v then [] else values (fields_of v)

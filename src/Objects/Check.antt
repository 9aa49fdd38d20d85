-- ===== src/Objects/Check.antt =====
-- What `checkFieldsExistence` looks at.
use mathlib.Core.List.{Memᴰ}
use node_ddd_boilerplate_typ.Base.{
  Bool, Bool-cases, List, String, ap, arith, false, if◌then◌else◌, inl, inr, refl, true, ◌||◌, ◌≡◌,
}
use node_ddd_boilerplate_typ.Objects.{any_listed, check_fields_existence, last_nested}
use node_ddd_boilerplate_typ.Value.{
  Fields, Value, arr, end, field, fields_of, is_object, keys, obj, undefined, values,
}

-- The last property that holds an object, or undefined.
abbrev pub last_object : Value → Fields → Value
last_object last end = last
last_object last (field k v fs) = last_object (if is_object v then v else last) fs

-- Some object within the value has a listed key of its own.
pub data HasListed (names : List String) : Value → Type 0 where
  own : {v : Value} → any_listed names (keys (fields_of v)) ≡ true → HasListed names v
  nested : {v w : Value} → Memᴰ w (values (fields_of v)) → HasListed names w → HasListed names v

last_nested-last_object :
    (names : List String) (last : Value) (fs : Fields)
    → last_nested names (check_fields_existence names last) fs
      ≡ check_fields_existence names (last_object last fs)
unfolding check_fields_existence
last_nested-last_object names last end = refl
last_nested-last_object names last (field k v fs) = elim (Bool-cases (is_object v)) [
  | inl object ↦ rw object (last_nested-last_object names v fs)
  | inr other ↦ rw other (last_nested-last_object names last fs)
]

-- The answer is read off the object's own keys and the last object among its properties; the other
-- nested objects do not count.
pub check_fields_existence-last :
    (names : List String) (fs : Fields)
    → check_fields_existence names (obj fs)
      ≡ (any_listed names (keys fs) || check_fields_existence names (last_object undefined fs))
unfolding check_fields_existence
check_fields_existence-last names fs =
    ap (λ b. any_listed names (keys fs) || b) (last_nested-last_object names undefined fs)

mutual
  unfolding check_fields_existence

  check_sound :
      (names : List String) (v : Value) → check_fields_existence names v ≡ true → HasListed names v
  check_sound names (arr fs) h = elim (Bool-cases (any_listed names (keys fs))) [
    | inl here ↦ own here
    | inr not_here ↦ last_sound names false fs (arr fs) (λ w m. m) (λ e. cc) (ground arith)
  ]
  check_sound names (obj fs) h = elim (Bool-cases (any_listed names (keys fs))) [
    | inl here ↦ own here
    | inr not_here ↦ last_sound names false fs (obj fs) (λ w m. m) (λ e. cc) (ground arith)
  ]
  check_sound names _ h = cc

  last_sound :
      (names : List String) (result : Bool) (fs : Fields) (v : Value)
      → ((w : Value) → Memᴰ w (values fs) → Memᴰ w (values (fields_of v)))
      → (result ≡ true → HasListed names v)
      → last_nested names result fs ≡ true
      → HasListed names v
  last_sound names result end v sub old h = old h
  last_sound names result (field k w fs) v sub old h =
      last_sound names (if is_object w then check_fields_existence names w else result) fs v
        (λ x m. sub x (Memᴰ.tail m))
        (λ e. elim (Bool-cases (is_object w)) [
          | inl object ↦ nested (sub w (Memᴰ.head refl)) (check_sound names w (ground arith))
          | inr other ↦ old (ground arith)
        ])
        h

-- A positive answer is right: a listed key stands somewhere in the value.
pub check_fields_existence_sound :
    (names : List String) (v : Value) → check_fields_existence names v ≡ true → HasListed names v
check_fields_existence_sound names v h = check_sound names v h

-- ===== src/Objects/Mask.antt =====
-- What the request log shows of a body after `maskSensitiveData`.
use node_ddd_boilerplate_typ.Base.{
  Bool-cases, List, Option, String, [], ap, arith, eq_iff, eq_refl, false, if◌then◌else◌, includes,
  inl, inr, refl, some, sym, true, ◌++◌, ◌∙◌, ◌∷◌, ◌≡◌, ◌⊎◌,
}
use node_ddd_boilerplate_typ.Objects.{
  any_listed, check_fields_existence, mask_sensitive_data, replace_fields, replace_in,
  sensitive_data_fields,
}
use node_ddd_boilerplate_typ.Objects.Check.{check_fields_existence-last, last_object}
use node_ddd_boilerplate_typ.Objects.Clone.{clone_object_lem}
use node_ddd_boilerplate_typ.Objects.Paths.{at_path}
use node_ddd_boilerplate_typ.Objects.Replace.{at_path-replace_in, at_path-replace_in_unlisted}
use node_ddd_boilerplate_typ.Value.{
  Date, Fields, Value, arr, date, end, field, find, get, is_null_or_undefined, is_object, keys, obj,
  str, undefined,
}

find_unlisted :
    (names : List String) (n : String) (fs : Fields)
    → includes names n ≡ true
    → any_listed names (keys fs) ≡ false
    → find n fs ≡ undefined
find_unlisted names n end listed h = refl
find_unlisted names n (field k v fs) listed h =
    ground (arith, eq_iff k n, find_unlisted names n fs listed)

check-false :
    (names : List String) (fs : Fields)
    → check_fields_existence names (obj fs) ≡ false
    → any_listed names (keys fs) ≡ false
unfolding check_fields_existence
check-false names fs h = ground arith

replace_in-flat :
    (names : List String) (r v : Value) → is_object v ≡ false → replace_in names r v ≡ v
unfolding replace_in
replace_in-flat names r (arr fs) h = cc
replace_in-flat names r (obj fs) h = cc
replace_in-flat names r _ h = refl

last_object_any :
    (w : Value) (fs : Fields)
    → is_object (last_object undefined fs) ≡ true
    → last_object w fs ≡ last_object undefined fs
last_object_any w end h = cc
last_object_any w (field k v fs) h = elim (Bool-cases (is_object v)) [
  | inl object ↦ rw object refl
  | inr other ↦ rw other (last_object_any w fs (rw other at h))
]

-- A first property adds nothing to the answer if its key is not listed and an object follows.
check-hidden :
    (names : List String) (k : String) (v : Value) (fs : Fields)
    → includes names k ≡ false
    → is_object (last_object undefined fs) ≡ true
    → check_fields_existence names (obj fs) ≡ false
    → check_fields_existence names (obj (field k v fs)) ≡ false
check-hidden names k v fs other object clean =
    check_fields_existence-last names (field k v fs)
    ∙ rw (last_object_any (if is_object v then v else undefined) fs object, other)
        (sym (check_fields_existence-last names fs) ∙ clean)

-- The platform's `structuredClone` returns equal values, and does not throw on a date.
module _ (structured_clone : Value → Option Value)
    (copies : (v w : Value) → structured_clone v ≡ some w → w ≡ v)
    (dates : (d : Date) → structured_clone (date d) ≡ some (date d)) where
  abbrev masked : Fields → Value
  masked fs = mask_sensitive_data structured_clone (obj fs)

  masked-found :
      (fs : Fields)
      → check_fields_existence sensitive_data_fields (obj fs) ≡ true
      → masked fs ≡ replace_in sensitive_data_fields (str "***") (obj fs)
  unfolding mask_sensitive_data replace_fields is_null_or_undefined
  masked-found fs h = rw (h, clone_object_lem structured_clone copies dates fs) refl

  masked-not_found :
      (fs : Fields)
      → check_fields_existence sensitive_data_fields (obj fs) ≡ false
      → masked fs ≡ obj fs
  unfolding mask_sensitive_data
  masked-not_found fs h = rw h refl

  -- If `structuredClone` copies what it copies as it is and every date, then once
  -- `checkFieldsExistence` reports a sensitive field, a sensitive field of any object at any depth
  -- of the log is undefined or "***".
  pub mask_sensitive_data_deep :
      (fs : Fields) (path : List String) (n : String)
      → check_fields_existence sensitive_data_fields (obj fs) ≡ true
      → includes sensitive_data_fields n ≡ true
      → let found = at_path (mask_sensitive_data structured_clone (obj fs)) (path ++ n ∷ []) in
        (found ≡ undefined) ⊎ (found ≡ str "***")
  mask_sensitive_data_deep fs path n h listed =
      rw (masked-found fs h)
        (at_path-replace_in sensitive_data_fields (str "***") refl refl (obj fs) path n listed)

  -- If `structuredClone` copies what it copies as it is and every date, a sensitive field of the
  -- body itself is undefined or "***" in the log, whatever `checkFieldsExistence` reports.
  pub mask_sensitive_data_own :
      (fs : Fields) (n : String)
      → includes sensitive_data_fields n ≡ true
      → let found = get (mask_sensitive_data structured_clone (obj fs)) n in
        (found ≡ undefined) ⊎ (found ≡ str "***")
  mask_sensitive_data_own fs n listed =
      elim (Bool-cases (check_fields_existence sensitive_data_fields (obj fs))) [
        | inl h ↦ mask_sensitive_data_deep fs [] n h listed
        | inr h ↦ inl (
            ap (λ v. get v n) (masked-not_found fs h)
            ∙ find_unlisted sensitive_data_fields n fs listed
                (check-false sensitive_data_fields fs h))
      ]

  -- If `structuredClone` copies what it copies as it is and every date, what stands at a path
  -- without sensitive keys, and is no object, is logged as it is.
  pub mask_sensitive_data_unlisted :
      (fs : Fields) (path : List String)
      → any_listed sensitive_data_fields path ≡ false
      → is_object (at_path (obj fs) path) ≡ false
      → at_path (mask_sensitive_data structured_clone (obj fs)) path ≡ at_path (obj fs) path
  mask_sensitive_data_unlisted fs path other leaf =
      elim (Bool-cases (check_fields_existence sensitive_data_fields (obj fs))) [
        | inl h ↦
            ap (λ v. at_path v path) (masked-found fs h)
            ∙ at_path-replace_in_unlisted sensitive_data_fields (str "***") refl refl (obj fs) path
                other
            ∙ replace_in-flat sensitive_data_fields (str "***") _ leaf
        | inr h ↦ ap (λ v. at_path v path) (masked-not_found fs h)
      ]

  -- If the last object among the fields of a body stands behind its first property, whose key is
  -- not sensitive, and `checkFieldsExistence` reports nothing of these fields, the first property
  -- is logged as it is, with all that it holds.
  pub mask_sensitive_data_leak :
      (k : String) (v : Value) (fs : Fields)
      → includes sensitive_data_fields k ≡ false
      → is_object (last_object undefined fs) ≡ true
      → check_fields_existence sensitive_data_fields (obj fs) ≡ false
      → get (mask_sensitive_data structured_clone (obj (field k v fs))) k ≡ v
  mask_sensitive_data_leak k v fs other object clean =
      ap (λ x. get x k) (masked-not_found (field k v fs) (check-hidden _ k v fs other object clean))
      ∙ rw (eq_refl k) refl

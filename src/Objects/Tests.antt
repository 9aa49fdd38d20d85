-- ===== src/Objects/Tests.antt =====
-- Runs, and the theorems at concrete bodies.
use node_ddd_boilerplate_typ.Base.{Option, [], arith, refl, some, ◌||◌, ◌∷◌, ◌≡◌, ◌⊎◌}
use node_ddd_boilerplate_typ.Objects.{
  any_listed, check_fields_existence, clone_object, mask_sensitive_data, replace_fields, replace_in,
  sensitive_data_fields,
}
use node_ddd_boilerplate_typ.Objects.Check.{
  HasListed, check_fields_existence-last, check_fields_existence_sound, last_object,
}
use node_ddd_boilerplate_typ.Objects.Clone.{clone_object_lem}
use node_ddd_boilerplate_typ.Objects.Mask.{
  mask_sensitive_data_deep, mask_sensitive_data_leak, mask_sensitive_data_own,
  mask_sensitive_data_unlisted,
}
use node_ddd_boilerplate_typ.Objects.Paths.{at_path}
use node_ddd_boilerplate_typ.Value.{
  Fields, Value, end, field, get, is_null_or_undefined, keys, num, obj, str, undefined,
}

abbrev copies_all : Value → Option Value
copies_all v = some v

copies_all-eq : (v w : Value) → copies_all v ≡ some w → w ≡ v
copies_all-eq v w h = ground arith

-- `{ email, password, card: { cvv }, note: { text } }`
abbrev body : Fields
body = field "email" (str "a@b.c") (
    field "password" (str "secret") (
      field "card" (obj (field "cvv" (num 123) end))
        (field "note" (obj (field "text" (str "hi") end)) end)))

-- The same without the password of its own: the card's code stays.
abbrev leaking : Fields
leaking = field "note" (obj (field "text" (str "hi") end)) end

mask_sensitive_data_runs :
    mask_sensitive_data copies_all (obj body)
    ≡ obj (
        field "email" (str "a@b.c") (
          field "password" (str "***") (
            field "card"
              (obj (field "cvv" (str "***") end))
              (field "note" (obj (field "text" (str "hi") end)) end))))
unfolding mask_sensitive_data replace_fields replace_in check_fields_existence clone_object
    is_null_or_undefined
mask_sensitive_data_runs = refl

check_fields_existence_sound_example : HasListed sensitive_data_fields (obj body)
unfolding check_fields_existence
check_fields_existence_sound_example =
    check_fields_existence_sound sensitive_data_fields (obj body) refl

check_fields_existence-last_example : check_fields_existence sensitive_data_fields (obj body) ≡ (
    any_listed sensitive_data_fields (keys body)
    || check_fields_existence sensitive_data_fields (last_object undefined body))
check_fields_existence-last_example = check_fields_existence-last sensitive_data_fields body

mask_sensitive_data_deep_example :
    let found = at_path (mask_sensitive_data copies_all (obj body)) ("card" ∷ "cvv" ∷ []) in
    (found ≡ undefined) ⊎ (found ≡ str "***")
unfolding check_fields_existence
mask_sensitive_data_deep_example =
    mask_sensitive_data_deep copies_all copies_all-eq (λ d. refl) body ("card" ∷ []) "cvv" refl refl

mask_sensitive_data_own_example :
    let found = get (mask_sensitive_data copies_all (obj body)) "password" in
    (found ≡ undefined) ⊎ (found ≡ str "***")
mask_sensitive_data_own_example =
    mask_sensitive_data_own copies_all copies_all-eq (λ d. refl) body "password" refl

mask_sensitive_data_unlisted_example :
    at_path (mask_sensitive_data copies_all (obj body)) ("note" ∷ "text" ∷ [])
    ≡ at_path (obj body) ("note" ∷ "text" ∷ [])
mask_sensitive_data_unlisted_example =
    mask_sensitive_data_unlisted copies_all copies_all-eq (λ d. refl) body ("note" ∷ "text" ∷ [])
      refl refl

mask_sensitive_data_leak_example :
    get
      (mask_sensitive_data copies_all
        (obj (field "card" (obj (field "cvv" (num 123) end)) leaking)))
      "card"
    ≡ obj (field "cvv" (num 123) end)
unfolding check_fields_existence
mask_sensitive_data_leak_example =
    mask_sensitive_data_leak copies_all copies_all-eq (λ d. refl) "card"
      (obj (field "cvv" (num 123) end)) leaking refl refl refl

clone_object_lem_example : clone_object copies_all (obj body) ≡ obj body
clone_object_lem_example = clone_object_lem copies_all copies_all-eq (λ d. refl) body

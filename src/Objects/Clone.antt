-- ===== src/Objects/Clone.antt =====
-- The copy that `cloneObject` makes where the platform's `structuredClone` throws.
use node_ddd_boilerplate_typ.Base.{
  Bool-cases, Option, Option-cases, ap, inl, inr, refl, some, true, ◌≡◌,
}
use node_ddd_boilerplate_typ.Objects.{clone_fields, clone_object, is_plain, or_copy}
use node_ddd_boilerplate_typ.Value.{Date, Fields, Value, date, end, field, obj}

-- `structuredClone` returns equal values, and does not throw on a date.
module _ (structured_clone : Value → Option Value)
    (copies : (v w : Value) → structured_clone v ≡ some w → w ≡ v)
    (dates : (d : Date) → structured_clone (date d) ≡ some (date d)) where
  or_copy-eq : (v copy : Value) → copy ≡ v → or_copy (structured_clone v) copy ≡ v
  or_copy-eq v copy h = elim (Option-cases (structured_clone v)) [
    | inl throws ↦ rw throws h
    | inr (w, returned) ↦ rw returned (copies v w returned)
  ]

  mutual
    unfolding clone_object

    clone_object-eq : (v : Value) → is_plain v ≡ true → clone_object structured_clone v ≡ v
    clone_object-eq (date d) h = rw (dates d) refl
    clone_object-eq (obj fs) h = or_copy-eq (obj fs) _ (ap obj (clone_fields-eq fs))
    clone_object-eq _ h = cc

    clone_fields-eq : (fs : Fields) → clone_fields structured_clone fs ≡ fs
    clone_fields-eq end = refl
    clone_fields-eq (field k v fs) = elim (Bool-cases (is_plain v)) [
      | inl plain ↦ rw (plain, clone_object-eq v plain, clone_fields-eq fs) refl
      | inr other ↦ rw (other, clone_fields-eq fs) refl
    ]

  -- The copy of an object, with all its nested objects, equals the object.
  pub clone_object_lem : (fs : Fields) → clone_object structured_clone (obj fs) ≡ obj fs
  clone_object_lem fs = clone_object-eq (obj fs) refl

-- ===== src/Users/Strategy/Diff.antt =====
-- When an input asks for an update: some property that it defines differs.
use node_ddd_boilerplate_typ.Base.{
  Bool, Bool-cases, String, ap, arith, eq_iff, eq_refl, false, inl, inr, refl, sym, true, ◌||◌, ◌↔◌,
  ◌≡◌,
}
use node_ddd_boilerplate_typ.Entities.User.{User}
use node_ddd_boilerplate_typ.Users.Strategy.{
  attribute_changed, is_allowed_to_manage_user, must_update, must_update_any,
}
use node_ddd_boilerplate_typ.Value.{
  Fields, Value, arr, date, end, field, fields_of, get, is_object, is_undefined, obj, str,
  strict_eq, truthy, undefined,
}

-- The input's properties differ from the entity: one is given, is no object and is not the entity's,
-- or one is an object that differs from what the entity has there, which is truthy. Dates are
-- objects without properties, so they never differ.
pub data Differs : Value → Fields → Type 0 where
  changed :
      {entity v : Value} {fs : Fields} {k : String}
      → is_undefined v ≡ false
      → is_object v ≡ false
      → strict_eq v (get entity k) ≡ false
      → Differs entity (field k v fs)
  inside :
      {entity v : Value} {fs : Fields} {k : String}
      → is_object v ≡ true
      → truthy (get entity k) ≡ true
      → Differs (get entity k) (fields_of v)
      → Differs entity (field k v fs)
  later :
      {entity v : Value} {fs : Fields} {k : String}
      → Differs entity fs
      → Differs entity (field k v fs)

attribute_sound :
    (inner : Bool) (entity v : Value) (fs : Fields) (k : String)
    → (inner ≡ true → is_object v ≡ true → Differs entity (field k v fs))
    → attribute_changed inner (get entity k) v ≡ true
    → Differs entity (field k v fs)
attribute_sound inner entity undefined fs k deeper h = cc
attribute_sound inner entity (date d) fs k deeper h = deeper h refl
attribute_sound inner entity (arr gs) fs k deeper h = deeper h refl
attribute_sound inner entity (obj gs) fs k deeper h = deeper h refl
attribute_sound inner entity v fs k deeper h = changed refl refl (ground arith)

mutual
  unfolding must_update

  must_update_sound :
      (entity v : Value)
      → must_update entity v ≡ true
      → (truthy entity ≡ true) × (is_object v ≡ true) × Differs entity (fields_of v)
  must_update_sound entity (arr fs) h =
      (ground arith, refl, must_update_any_sound entity fs (ground arith))
  must_update_sound entity (obj fs) h =
      (ground arith, refl, must_update_any_sound entity fs (ground arith))
  must_update_sound entity _ h = cc

  must_update_any_sound :
      (entity : Value) (fs : Fields) → must_update_any entity fs ≡ true → Differs entity fs
  must_update_any_sound entity end h = cc
  must_update_any_sound entity (field k v fs) h =
      elim (Bool-cases (attribute_changed (must_update (get entity k) v) (get entity k) v)) [
        | inl here ↦
            attribute_sound (must_update (get entity k) v) entity v fs k
              (λ e o. let (t, _, d) = must_update_sound (get entity k) v e in inside o t d) here
        | inr not_here ↦ later (must_update_any_sound entity fs (ground arith))
      ]

attribute_changed_leaf :
    (inner : Bool) (e v : Value)
    → is_undefined v ≡ false
    → is_object v ≡ false
    → strict_eq v e ≡ false
    → attribute_changed inner e v ≡ true
attribute_changed_leaf inner e undefined p q r = cc
attribute_changed_leaf inner e (date d) p q r = cc
attribute_changed_leaf inner e (arr fs) p q r = cc
attribute_changed_leaf inner e (obj fs) p q r = cc
attribute_changed_leaf inner e _ p q r = ground arith

must_update_object :
    (e v : Value)
    → is_object v ≡ true
    → truthy e ≡ true
    → must_update_any e (fields_of v) ≡ true
    → attribute_changed (must_update e v) e v ≡ true
unfolding must_update
must_update_object e (date d) o t h = cc
must_update_object e (arr fs) o t h = ground arith
must_update_object e (obj fs) o t h = ground arith
must_update_object e _ o t h = cc

or_true_right : (b : Bool) → (b || true) ≡ true
or_true_right true = refl
or_true_right false = refl

must_update_any_complete :
    {entity : Value} {fs : Fields} → Differs entity fs → must_update_any entity fs ≡ true
unfolding must_update
must_update_any_complete (changed {entity} {v} {k = k} p q r) =
    rw (attribute_changed_leaf (must_update (get entity k) v) (get entity k) v p q r) refl
must_update_any_complete (inside {entity} {v} {k = k} o t d) =
    rw (must_update_object (get entity k) v o t (must_update_any_complete d)) refl
must_update_any_complete (later {entity} {v} {fs} {k} d) =
    rw (must_update_any_complete d) (or_true_right _)

-- On an object as input, `mustUpdate` holds exactly when the entity is there and the input differs
-- from it: some property of the input, or of an object in it whose counterpart in the entity is
-- truthy at every step down, is given, is no object, and is not strictly equal to that of the
-- entity. So nothing counts below a property that the entity lacks, and no date does.
pub must_update_iff :
    (entity : Value) (fs : Fields)
    → (must_update entity (obj fs) ≡ true) ↔ ((truthy entity ≡ true) × Differs entity fs)
unfolding must_update
must_update_iff entity fs = (
  λ h. (ground arith, must_update_any_sound entity fs (ground arith)),
  λ (t, d). rw (t, must_update_any_complete d) refl,
)

strict_eq-str : (s : String) (v : Value) → strict_eq (str s) v ≡ true → v ≡ str s
strict_eq-str s (str t) h = ap str (sym ((eq_iff s t).0 h))
strict_eq-str s _ h = cc

-- An agent with a name and an identifier may manage a user exactly when its name is the user's
-- e-mail and its identifier is the user's.
pub is_allowed_to_manage_user_iff :
    (user : User) (name id : String)
    → (is_allowed_to_manage_user (record { username = str name; client_id = str id }) user ≡ true)
      ↔ ((user.email ≡ str name) × (user.id ≡ str id))
unfolding is_allowed_to_manage_user
is_allowed_to_manage_user_iff user name id = (
  λ h. (strict_eq-str name user.email (ground arith), strict_eq-str id user.id (ground arith)),
  λ (e, i). rw (e, i, eq_refl name, eq_refl id) refl,
)

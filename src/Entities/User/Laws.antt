-- ===== src/Entities/User/Laws.antt =====
-- The invariant of a user, its setters, and reading it back from its attributes.
use node_ddd_boilerplate_typ.Entities.UserPreference.Laws
use node_ddd_boilerplate_typ.Base.{
  Bool-cases, Option, String, ap, arith, false, if◌then◌else◌, inl, inr, is_empty_text, none, refl,
  some, ◌≡◌,
}
use node_ddd_boilerplate_typ.Entities.Abstract.{
  assign-is_null, assign-is_undefined, assign-or_undefined, assign_undefined, exists, get_date,
  get_date-now, get_date-text, is_null,
}
use node_ddd_boilerplate_typ.Entities.User.{
  User, get_attributes, new_preference, new_user, preference_attributes, set_deleted_by,
  set_doc_infos, set_email, set_full_name, set_id, set_password, set_phone, set_preference,
  set_preference_user,
}
use node_ddd_boilerplate_typ.Entities.UserPreference.{UserPreference, set_user_id}
use node_ddd_boilerplate_typ.Entities.UserPreference.Laws.{
  new_user_preference-IsWellFormed, new_user_preference-get_attributes, set_user_id-IsWellFormed,
}
use node_ddd_boilerplate_typ.Platform.{Platform}
use node_ddd_boilerplate_typ.Value.{Date, Value, date, get, is_undefined, null, obj, str, undefined}

abbrev pub IsWellFormedPreference : Option UserPreference → Type 0
IsWellFormedPreference none = Unit
IsWellFormedPreference (some e) = Laws.IsWellFormed e

-- The fields without a default are never null, the nullable ones are never undefined.
pub record IsWellFormed (u : User) : Type 0 where
  pub id_not_null : is_null u.id ≡ false
  pub full_name_not_null : is_null u.full_name ≡ false
  pub email_not_null : is_null u.email ≡ false
  pub password_not_null : is_null u.password ≡ false
  pub phone_defined : is_undefined u.phone ≡ false
  pub doc_type_defined : is_undefined u.doc_type ≡ false
  pub document_defined : is_undefined u.document ≡ false
  pub fu_defined : is_undefined u.fu ≡ false
  pub preference_valid : IsWellFormedPreference u.preference
  pub updated_at_defined : is_undefined u.updated_at ≡ false
  pub deleted_at_defined : is_undefined u.deleted_at ≡ false
  pub deleted_by_defined : is_undefined u.deleted_by ≡ false

abbrev reset : Date → Option UserPreference → Option UserPreference
reset now none = none
reset now (some e) = some (record e { created_at = now })

-- The user with the creation dates of itself and of its preference moved to the given time.
abbrev pub recreated : Date → User → User
recreated now u = record u { preference = reset now u.preference; created_at = now }

set_preference_user-IsWellFormed :
    (now : Date) (id : String) (o : Option UserPreference)
    → IsWellFormedPreference o
    → IsWellFormedPreference (set_preference_user now id o)
set_preference_user-IsWellFormed now id none h = tt
set_preference_user-IsWellFormed now id (some e) h = Laws.set_user_id-IsWellFormed now id e h

module _ (now : Date) (u : User) (h : IsWellFormed u) where
  pub set_id-IsWellFormed : (id : String) → IsWellFormed (set_id now id u)
  unfolding set_id
  set_id-IsWellFormed id = elim (Bool-cases (is_empty_text id)) [
    | inl empty ↦ rw empty h
    | inr given ↦
        let valid = set_preference_user-IsWellFormed now id u.preference h.preference_valid in
        rw given (ground arith)
  ]

  pub set_password-IsWellFormed : (password : String) → IsWellFormed (set_password now password u)
  unfolding set_password
  set_password-IsWellFormed password = ground arith

  pub set_preference-IsWellFormed :
      (e : UserPreference) → Laws.IsWellFormed e → IsWellFormed (set_preference e u)
  unfolding set_preference
  set_preference-IsWellFormed e valid = ground arith

  -- Each of the other setters keeps the invariant.
  pub setters-IsWellFormed :
      (a b c : String)
      → IsWellFormed (set_full_name now a u)
        × IsWellFormed (set_email now a u)
        × IsWellFormed (set_phone now a u)
        × IsWellFormed (set_doc_infos now a b c u)
        × IsWellFormed (set_deleted_by now a u)
  unfolding set_full_name set_email set_phone set_doc_infos set_deleted_by
  setters-IsWellFormed a b c =
      (ground arith, ground arith, ground arith, ground arith, ground arith)

module _ ⦃p : Platform⦄ (now : Date) where
  new_preference-IsWellFormed : (v : Value) → IsWellFormedPreference (new_preference now v)
  new_preference-IsWellFormed v = elim (Bool-cases (exists v)) [
    | inl given ↦ rw given (Laws.new_user_preference-IsWellFormed now v)
    | inr missing ↦ rw missing tt
  ]

  -- Whatever the constructor is given, the user is well-formed.
  pub new_user-IsWellFormed : (v : Value) → IsWellFormed (new_user now v)
  unfolding new_user
  new_user-IsWellFormed v = record {
    id_not_null = assign-is_null (get v "id") undefined refl;
    full_name_not_null = assign-is_null (get v "fullName") undefined refl;
    email_not_null = assign-is_null (get v "email") undefined refl;
    password_not_null = assign-is_null (get v "password") undefined refl;
    phone_defined = assign-is_undefined (get v "phone") null refl;
    doc_type_defined = assign-is_undefined (get v "docType") null refl;
    document_defined = assign-is_undefined (get v "document") null refl;
    fu_defined = assign-is_undefined (get v "fu") null refl;
    preference_valid = new_preference-IsWellFormed (get v "preference");
    updated_at_defined = assign-is_undefined (get v "updatedAt") null refl;
    deleted_at_defined = assign-is_undefined (get v "deletedAt") null refl;
    deleted_by_defined = assign-is_undefined (get v "deletedBy") null refl;
  }

  new_preference-attributes :
      (o : Option UserPreference)
      → IsWellFormedPreference o
      → new_preference now (preference_attributes o) ≡ reset now o
  new_preference-attributes none h = refl
  new_preference-attributes (some e) h = ap some (Laws.new_user_preference-get_attributes now e h)

  -- The attributes of a well-formed user give the user back, with its preference, but for the
  -- creation dates of both, which become the time of the call.
  pub new_user-get_attributes :
      (u : User) → IsWellFormed u → new_user now (obj (get_attributes u)) ≡ recreated now u
  unfolding new_user get_attributes get_date
  new_user-get_attributes u h = λ i. record {
    id = assign_undefined u.id h.id_not_null i;
    full_name = assign_undefined u.full_name h.full_name_not_null i;
    email = assign_undefined u.email h.email_not_null i;
    password = assign_undefined u.password h.password_not_null i;
    phone = assign-or_undefined u.phone h.phone_defined i;
    doc_type = assign-or_undefined u.doc_type h.doc_type_defined i;
    document = assign-or_undefined u.document h.document_defined i;
    fu = assign-or_undefined u.fu h.fu_defined i;
    preference = new_preference-attributes u.preference h.preference_valid i;
    created_at = now;
    updated_at = assign-or_undefined u.updated_at h.updated_at_defined i;
    deleted_at = assign-or_undefined u.deleted_at h.deleted_at_defined i;
    deleted_by = assign-or_undefined u.deleted_by h.deleted_by_defined i;
  }

  -- A creation date that is a text, and not the empty one, is read; one that is a date already, as a
  -- database returns it, is dropped for the time of the call.
  pub new_user-created_at :
      (v w : Value) (s : String) (d : Date)
      → get v "createdAt" ≡ str s
      → is_empty_text s ≡ false
      → get w "createdAt" ≡ date d
      → ((new_user now v).created_at ≡ p.from_iso s) × ((new_user now w).created_at ≡ now)
  unfolding new_user
  new_user-created_at v w s d text given dated =
      (rw text (get_date-text now s given), rw dated (get_date-now now (date d) refl))

-- Of a user with a preference, an identifier that is not empty goes to the user and to its
-- preference, with the time of the call, and an empty one changes nothing.
pub set_id_lem :
    (now : Date) (id : String) (u : User) (e : UserPreference)
    → u.preference ≡ some e
    → set_id now id u ≡ (
        if is_empty_text id then u else record u {
          id = str id;
          preference = some (record e { user_id = str id; updated_at = date now });
          updated_at = date now;
        })
unfolding set_id set_user_id
set_id_lem now id u e h = elim (Bool-cases (is_empty_text id)) [
  | inl empty ↦ rw empty refl
  | inr given ↦ rw (given, h, given) refl
]

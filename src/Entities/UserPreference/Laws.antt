-- ===== src/Entities/UserPreference/Laws.antt =====
-- The invariant of a preference, and reading it back from its attributes.
use node_ddd_boilerplate_typ.Base.{
  Bool-cases, String, ap, arith, eq_iff, false, if◌then◌else◌, includes, inl, inr, refl, true, ◌≡◌,
}
use node_ddd_boilerplate_typ.Entities.Abstract.{
  assign, assign-is_null, assign-is_undefined, assign-or_undefined, assign_undefined, exists,
  get_date, is_null,
}
use node_ddd_boilerplate_typ.Entities.UserPreference.{
  UserPreference, get_attributes, new_user_preference, set_default_theme, set_id, set_user_id,
  theme_mapper, themes,
}
use node_ddd_boilerplate_typ.Platform.{Platform}
use node_ddd_boilerplate_typ.Value.{
  Date, Value, date, find, get, is_undefined, null, obj, str, undefined,
}

-- The identifiers are never null, and the other fields are never undefined.
pub record IsWellFormed (e : UserPreference) : Type 0 where
  pub id_not_null : is_null e.id ≡ false
  pub user_id_not_null : is_null e.user_id ≡ false
  pub image_path_defined : is_undefined e.image_path ≡ false
  pub default_theme_defined : is_undefined e.default_theme ≡ false
  pub updated_at_defined : is_undefined e.updated_at ≡ false
  pub deleted_at_defined : is_undefined e.deleted_at ≡ false

user_id-is_null : (v w : Value) → is_null (if exists v then v else assign w undefined) ≡ false
user_id-is_null undefined w = assign-is_null w undefined refl
user_id-is_null null w = assign-is_null w undefined refl
user_id-is_null _ w = refl

find-theme_mapper :
    (theme : String) → includes themes theme ≡ true → find theme theme_mapper ≡ str theme
unfolding theme_mapper
find-theme_mapper theme h =
    ground (arith, eq_iff "DEFAULT" theme, eq_iff "LIGHT" theme, eq_iff "DARK" theme)

module _ (now : Date) where
  -- The setters keep the invariant, whatever they are given.
  pub set_id-IsWellFormed :
      (id : String) (e : UserPreference) → IsWellFormed e → IsWellFormed (set_id now id e)
  unfolding set_id
  set_id-IsWellFormed id e h = ground arith

  pub set_user_id-IsWellFormed :
      (id : String) (e : UserPreference) → IsWellFormed e → IsWellFormed (set_user_id now id e)
  unfolding set_user_id
  set_user_id-IsWellFormed id e h = ground arith

module _ ⦃p : Platform⦄ (now : Date) where
  pub new_user_preference-IsWellFormed : (v : Value) → IsWellFormed (new_user_preference now v)
  unfolding new_user_preference
  new_user_preference-IsWellFormed v = record {
    id_not_null = assign-is_null (get v "id") undefined refl;
    user_id_not_null = user_id-is_null (get v "userId") (get (get v "user") "id");
    image_path_defined = assign-is_undefined (get v "imagePath") null refl;
    default_theme_defined = assign-is_undefined (get v "defaultTheme") null refl;
    updated_at_defined = assign-is_undefined (get v "updatedAt") null refl;
    deleted_at_defined = assign-is_undefined (get v "deletedAt") null refl;
  }

  user_id-eq :
      (v : Value) → is_null v ≡ false → (if exists v then v else assign undefined undefined) ≡ v
  user_id-eq v h = assign_undefined v h

  -- The attributes of a preference give the preference back, but for its creation date.
  pub new_user_preference-get_attributes :
      (e : UserPreference)
      → IsWellFormed e
      → new_user_preference now (obj (get_attributes e)) ≡ record e { created_at = now }
  unfolding new_user_preference get_attributes get_date
  new_user_preference-get_attributes e h = λ i. record {
    id = assign_undefined e.id h.id_not_null i;
    user_id = user_id-eq e.user_id h.user_id_not_null i;
    image_path = assign-or_undefined e.image_path h.image_path_defined i;
    default_theme = assign-or_undefined e.default_theme h.default_theme_defined i;
    created_at = now;
    updated_at = assign-or_undefined e.updated_at h.updated_at_defined i;
    deleted_at = assign-or_undefined e.deleted_at h.deleted_at_defined i;
  }

  -- A theme that is not listed leaves the preference as it is; a listed one, which is in upper
  -- case already, is stored as it is given.
  pub set_default_theme_lem :
      (theme : String) (e : UserPreference)
      → ((t : String) → includes themes t ≡ true → p.to_upper_case t ≡ t)
      → set_default_theme now theme e ≡ (
          if includes themes theme
          then record e { default_theme = str theme; updated_at = date now }
          else e)
  unfolding set_default_theme
  set_default_theme_lem theme e upper = elim (Bool-cases (includes themes theme)) [
    | inl listed ↦
        rw (listed, upper theme listed)
          (ap (λ v. record e { default_theme = v; updated_at = date now })
            (find-theme_mapper theme listed))
    | inr other ↦ rw other refl
  ]

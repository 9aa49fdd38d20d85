-- ===== src/Entities/UserPreference.antt =====
-- src/modules/domain/entities/UserPreference.entity.ts
pub mod Laws
use node_ddd_boilerplate_typ.Base.{List, String, [], if◌then◌else◌, includes, is_empty_text, ◌∷◌}
use node_ddd_boilerplate_typ.Entities.Abstract.{assign, exists, get_date, or_undefined}
use node_ddd_boilerplate_typ.Platform.{Platform}
use node_ddd_boilerplate_typ.Value.{
  Date, Fields, Value, date, end, field, find, get, null, str, undefined,
}

-- The values of `ThemesEnum`.
abbrev pub themes : List String
themes = "DEFAULT" ∷ "LIGHT" ∷ "DARK" ∷ []

-- `UserPreferenceEntity`
pub record UserPreference : Type 0 where
  pub id : Value
  pub user_id : Value
  pub image_path : Value
  pub default_theme : Value
  pub created_at : Date
  pub updated_at : Value
  pub deleted_at : Value

-- `getAttributes`
unfoldable pub get_attributes : UserPreference → Fields
get_attributes e = field "id" e.id (
    field "userId" e.user_id (
      field "imagePath" (or_undefined e.image_path) (
        field "defaultTheme" (or_undefined e.default_theme) (
          field "createdAt" (date e.created_at) (
            field "updatedAt" (or_undefined e.updated_at)
              (field "deletedAt" (or_undefined e.deleted_at) end))))))

-- `setId`
pub set_id : Date → String → UserPreference → UserPreference
set_id now id e = if is_empty_text id then e else record e { id = str id; updated_at = date now }

-- `setUserId`
unfoldable pub set_user_id : Date → String → UserPreference → UserPreference
set_user_id now user_id e =
    if is_empty_text user_id then e else record e { user_id = str user_id; updated_at = date now }

-- `setImagePath`
pub set_image_path : Date → String → UserPreference → UserPreference
set_image_path now path e = record e { image_path = str path; updated_at = date now }

-- `themeMapper`
theme_mapper : Fields
theme_mapper =
    field "DEFAULT" (str "DEFAULT") (field "LIGHT" (str "LIGHT") (field "DARK" (str "DARK") end))

module _ ⦃p : Platform⦄ where
  -- The constructor.
  unfoldable pub new_user_preference : Date → Value → UserPreference
  new_user_preference now data_values = record {
    id = assign (get data_values "id") undefined;
    user_id =
        if exists (get data_values "userId")
        then get data_values "userId"
        else assign (get (get data_values "user") "id") undefined;
    image_path = assign (get data_values "imagePath") null;
    default_theme = assign (get data_values "defaultTheme") null;
    created_at =
        if exists (get data_values "createdAt")
        then get_date now (get data_values "createdAt")
        else get_date now undefined;
    updated_at = assign (get data_values "updatedAt") null;
    deleted_at = assign (get data_values "deletedAt") null;
  }

  -- `setDefaultTheme`
  pub set_default_theme : Date → String → UserPreference → UserPreference
  unfolding theme_mapper
  set_default_theme now theme e =
      if includes themes theme
      then record e {
        default_theme = find (p.to_upper_case theme) theme_mapper;
        updated_at = date now;
      }
      else e

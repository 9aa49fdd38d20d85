-- ===== src/Users/Mapper.antt =====
-- src/modules/app/user/repositories/user/user.mapper.ts and
-- src/modules/app/user/repositories/userPreference/userPreference.mapper.ts
pub mod Laws
mod Tests
use node_ddd_boilerplate_typ.Entities.UserPreference
use node_ddd_boilerplate_typ.Entities.User
use node_ddd_boilerplate_typ.Base.{Option, if◌then◌else◌, none, not, some}
use node_ddd_boilerplate_typ.Entities.Abstract.{validate}
use node_ddd_boilerplate_typ.Entities.User.{User, new_user, set_preference}
use node_ddd_boilerplate_typ.Entities.UserPreference.{UserPreference, new_user_preference}
use node_ddd_boilerplate_typ.Platform.{Platform}
use node_ddd_boilerplate_typ.Value.{Date, Value, end, field, fields_of, get, null, obj, omit, put}

-- `toDatabaseEntity` of a user; `validate` always succeeds.
unfoldable pub user_to_database : User → Value
user_to_database u =
    if not validate then null else obj (omit "preference" (omit "id" (User.get_attributes u)))

-- `toDatabaseEntity` of a preference.
unfoldable pub preference_to_database : UserPreference → Value
preference_to_database e =
    if not validate
    then null
    else obj (
        put "user" (obj (field "id" e.user_id end))
          (omit "userId" (omit "id" (UserPreference.get_attributes e))))

module _ ⦃p : Platform⦄ (now : Date) where
  -- `toDomainEntity` of a preference.
  abbrev pub preference_to_domain : Value → UserPreference
  preference_to_domain data_values = new_user_preference now data_values

  -- The preference of a user without one: `{ ...(preference ?? {}), userId: id }`.
  abbrev pub own_preference : Value → UserPreference
  own_preference row =
      preference_to_domain (obj (put "userId" (get row "id") (fields_of (get row "preference"))))

  abbrev with_preference : Value → User → Option UserPreference → User
  with_preference row u none = set_preference (own_preference row) u
  with_preference row u (some e) = u

  -- `toDomainEntity` of a user.
  unfoldable pub user_to_domain : Value → User
  user_to_domain row = let u = new_user now row in with_preference row u u.preference

-- ===== src/Users/PreferenceService.antt =====
-- src/modules/app/user/services/UserPreference.service.ts
use node_ddd_boilerplate_typ.Entities.UserPreference
use node_ddd_boilerplate_typ.Base.{Bool, String, [], false, ◌∷◌}
use node_ddd_boilerplate_typ.Effects.{Call, or_raise, rethrow, ◌>>=◌}
use node_ddd_boilerplate_typ.Entities.UserPreference.{UserPreference, new_user_preference}
use node_ddd_boilerplate_typ.Exceptions.{Error, conflict, exception, not_found, with_message}
use node_ddd_boilerplate_typ.Platform.{Platform}
use node_ddd_boilerplate_typ.Store.{only_where}
use node_ddd_boilerplate_typ.Users.Query.{equal}
use node_ddd_boilerplate_typ.Users.Repository.{
  create_preference, delete_preference, find_preference, update_preference,
}
use node_ddd_boilerplate_typ.Users.Service.{Backend, caught_error}
use node_ddd_boilerplate_typ.Value.{Date, Fields, Value, omit}

module _ ⦃p : Platform⦄ where
  abbrev pub preference_not_found : Error
  preference_not_found =
      exception not_found (with_message "Preference not founded by userId!") false

module _ ⦃p : Platform⦄ {S : Type 0} (b : Backend S) (now : Date) where
  -- `UserPreferenceService.getByUserId`
  unfoldable pub get_by_user_id : Value → Call S UserPreference
  get_by_user_id user_id =
      rethrow
        (do
          preference ←
              find_preference b.preferences now (only_where (("user.id", equal user_id) ∷ []))
          or_raise preference preference_not_found)
        caught_error

  -- `UserPreferenceService.create`
  unfoldable pub create_own : UserPreference → Call S UserPreference
  create_own e = rethrow (create_preference b.preferences now e) caught_error

  -- `userPreferenceData`
  abbrev pub preference_data : Value → Fields
  preference_data data' =
      omit "createdAt"
        (omit "userId" (omit "id" (UserPreference.get_attributes (new_user_preference now data'))))

  -- `UserPreferenceService.update`
  unfoldable pub update_own : String → Value → Call S UserPreference
  update_own id data' =
      rethrow
        (do
          updated ← update_preference b.preferences now id (preference_data data')
          or_raise updated (exception conflict (with_message "Preference not updated!") false))
        caught_error

  -- `UserPreferenceService.delete`
  unfoldable pub delete_own : String → Bool → Call S Bool
  delete_own id soft_delete =
      rethrow (delete_preference b.preferences now id soft_delete) caught_error

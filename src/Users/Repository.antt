-- ===== src/Users/Repository.antt =====
-- src/modules/app/user/repositories/user/User.repository.ts and
-- src/modules/app/user/repositories/userPreference/UserPreference.repository.ts with
-- src/modules/app/user/repositories/userPreference/userPreference.query.ts
use node_ddd_boilerplate_typ.Repository
use node_ddd_boilerplate_typ.Base.{
  Bool, List, Option, String, [], false, if◌then◌else◌, none, true, ℕ,
}
use node_ddd_boilerplate_typ.Effects.{Call}
use node_ddd_boilerplate_typ.Entities.User.{User}
use node_ddd_boilerplate_typ.Entities.UserPreference.{UserPreference, themes}
use node_ddd_boilerplate_typ.Platform.{Platform}
use node_ddd_boilerplate_typ.Repository.{
  Pagination, create, delete_many_with, delete_one, delete_one_with, find_one, list_with, update,
}
use node_ddd_boilerplate_typ.Store.{ResourceRepo}
use node_ddd_boilerplate_typ.Users.Mapper.{
  preference_to_database, preference_to_domain, user_to_database, user_to_domain,
}
use node_ddd_boilerplate_typ.Users.Query.{
  BuildParams, FindOptions, ListQuery, Where, build_params, equal, in_and_equal, like,
  set_condition,
}
use node_ddd_boilerplate_typ.Value.{Date, Fields, Value, end, field, find, str, truthy}

abbrev pub empty_query : ListQuery
empty_query = record {
  limit = none;
  page = none;
  order = none;
  sort_by = none;
  search_term = none;
  select_soft_deleted = none;
}

-- The options of a query by identifier, with the sensitive data.
abbrev pub id_params : String → Bool → BuildParams
id_params id without_password = record {
  query = empty_query;
  attributes = field "id" (str id) end;
  without_password = without_password;
  without_sensitive_data = false;
}

-- The options of a list, never with the password.
abbrev pub list_params : ListQuery → Bool → BuildParams
list_params query without_sensitive_data = record {
  query = query;
  attributes = end;
  without_password = true;
  without_sensitive_data = without_sensitive_data;
}

module _ ⦃p : Platform⦄ {S : Type 0} (users : ResourceRepo S) (now : Date) where
  -- `UserRepository` as it inherits.
  abbrev pub create_user : User → Call S User
  create_user u = Repository.create users (user_to_domain now) user_to_database now u

  abbrev pub find_user : FindOptions → Call S (Option User)
  find_user query = Repository.find_one users (user_to_domain now) user_to_database now query

  abbrev pub update_user : String → Fields → Call S (Option User)
  update_user id data' = Repository.update users (user_to_domain now) user_to_database now id data'

  -- `getById`
  unfoldable pub get_user_by_id : String → Bool → Call S (Option User)
  get_user_by_id id without_password =
      Repository.find_one users (user_to_domain now) user_to_database now
        (build_params (id_params id without_password))

  -- `list`
  unfoldable pub list_users : ListQuery → Bool → Call S (Pagination User)
  list_users query without_sensitive_data =
      Repository.list_with users (user_to_domain now) user_to_database now
        (build_params (list_params query without_sensitive_data)) query

  -- What `deleteOne` and `deleteMany` write.
  abbrev pub deletion : Value → Fields
  deletion agent_id = field "deletedAt" (str (p.to_iso now)) (field "deletedBy" agent_id end)

  -- `deleteOne`
  abbrev pub delete_user : String → Bool → Value → Call S Bool
  delete_user id soft_delete agent_id =
      Repository.delete_one_with users (user_to_domain now) user_to_database now (deletion agent_id)
        id soft_delete

  -- `deleteMany`
  unfoldable pub delete_users : List String → Bool → Value → Call S (Option ℕ)
  delete_users ids soft_delete agent_id =
      Repository.delete_many_with users (user_to_domain now) user_to_database now
        (deletion agent_id) ids soft_delete

-- `buildWhereParams` of a preference: by identifier, else by user, else by filters.
unfoldable pub preference_where : Fields → Where
preference_where attributes =
    if truthy (find "id" attributes)
    then set_condition "id" (equal (find "id" attributes)) []
    else if truthy (find "userId" attributes)
    then set_condition "user.id" (equal (find "userId" attributes)) []
    else (let with_path =
          if truthy (find "imagePath" attributes)
          then set_condition "imagePath" (like (find "imagePath" attributes)) []
          else [] in
        if truthy (find "defaultTheme" attributes)
        then set_condition "defaultTheme" (in_and_equal themes (find "defaultTheme" attributes))
            with_path
        else with_path)

module _ ⦃p : Platform⦄ {S : Type 0} (preferences : ResourceRepo S) (now : Date) where
  -- `UserPreferenceRepository`, which inherits all.
  abbrev pub create_preference : UserPreference → Call S UserPreference
  create_preference e =
      Repository.create preferences (preference_to_domain now) preference_to_database now e

  abbrev pub find_preference : FindOptions → Call S (Option UserPreference)
  find_preference query =
      Repository.find_one preferences (preference_to_domain now) preference_to_database now query

  abbrev pub update_preference : String → Fields → Call S (Option UserPreference)
  update_preference id data' =
      Repository.update preferences (preference_to_domain now) preference_to_database now id data'

  abbrev pub delete_preference : String → Bool → Call S Bool
  delete_preference id soft_delete =
      Repository.delete_one preferences (preference_to_domain now) preference_to_database now id
        soft_delete

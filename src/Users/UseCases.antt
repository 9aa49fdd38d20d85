-- ===== src/Users/UseCases.antt =====
-- src/modules/app/user/usecases, the application's operations on users. Of two calls that run together,
-- the first is run first; both only read. The identifier of an entity is a text by its type.
pub mod Reads
pub mod Laws
pub mod Successes
pub mod Guarantees
mod CreationTests
mod Tests
use node_ddd_boilerplate_typ.Entities.User
use node_ddd_boilerplate_typ.Entities.UserPreference
use node_ddd_boilerplate_typ.Users.Service
use node_ddd_boilerplate_typ.Base.{
  Bool, Option, String, false, if◌then◌else◌, is_some, none, not, some, true, ◌&&◌,
}
use node_ddd_boilerplate_typ.Cryptography.{encode_jwt}
use node_ddd_boilerplate_typ.Effects.{Call, ok, or_raise, pure, raise_if, throw, ◌>>=◌, ◌>>◌}
use node_ddd_boilerplate_typ.Entities.User.{User, new_user, set_password, set_preference}
use node_ddd_boilerplate_typ.Entities.UserPreference.{
  UserPreference, new_user_preference, set_user_id,
}
use node_ddd_boilerplate_typ.Exceptions.{
  Error, business, conflict, exception, internal, not_found, unauthorized, with_message,
}
use node_ddd_boilerplate_typ.Platform.{Platform}
use node_ddd_boilerplate_typ.Repository.{Pagination}
use node_ddd_boilerplate_typ.Users.PreferenceService.{
  create_own, delete_own, get_by_user_id, update_own,
}
use node_ddd_boilerplate_typ.Users.Query.{ListQuery}
use node_ddd_boilerplate_typ.Users.Service.{
  Backend, delete, get_by_email, list, text_of, validate_password,
}
use node_ddd_boilerplate_typ.Users.Strategy.{UserAuth, is_allowed_to_manage_user, must_update}
use node_ddd_boilerplate_typ.Value.{Date, Value, end, field, get, obj, str, truthy}

-- `!!agentUser?.clientId`
abbrev pub has_client : Option UserAuth → Bool
has_client none = false
has_client (some agent) = truthy agent.client_id

module _ ⦃p : Platform⦄ where
  abbrev pub invalid_agent : Error
  invalid_agent = exception unauthorized (with_message "Invalid agentUser") false

  abbrev pub user_exists : Error
  user_exists = exception conflict (with_message "User already exists!") false

  abbrev pub may_not_delete : Error
  may_not_delete =
      exception business (with_message "agentUser not allowed to delete this user!") false

  abbrev pub may_not_update : Error
  may_not_update =
      exception business (with_message "agentUser not allowed to update this user!") false

  abbrev pub not_deleted : Error
  not_deleted = exception internal (with_message "User not deleted") false

  abbrev pub unknown_email : Error
  unknown_email = exception not_found (with_message "User not founded by e-mail!") false

-- The guard on the agent, and what follows it.
module _ ⦃p : Platform⦄ {S A : Type 0} where
  abbrev pub with_agent : Option UserAuth → (UserAuth → Call S A) → Call S A
  with_agent none action s = (throw invalid_agent, s)
  with_agent (some agent) action s =
      if truthy agent.client_id then action agent s else (throw invalid_agent, s)

module _ ⦃p : Platform⦄ {S : Type 0} (b : Backend S) (now : Date) where
  -- The user and the preference of an identifier, put together.
  abbrev pub user_with_preference : String → Call S User
  user_with_preference id = do
    user ← Service.get_by_id b now id true
    preference ← get_by_user_id b now (str id)
    pure (set_preference preference user)

  -- `CreateUserUseCase.execute` behind the search by e-mail.
  abbrev pub create_unless : Value → Option User → Call S User
  create_unless data' existent = do
    raise_if (is_some existent) user_exists
    created ← Service.create b now (new_user now data')
    create_own b now
        (set_user_id now (text_of created.id) (new_user_preference now (get data' "preference")))
    user_with_preference (text_of created.id)

  -- `CreateUserUseCase.execute` behind its guard.
  abbrev pub create_as : Value → UserAuth → Call S User
  create_as data' agent = do
    existent ← Service.get_by_email b now (new_user now data').email
    create_unless data' existent

  -- `CreateUserUseCase.execute`
  unfoldable pub create_user_use_case : Value → Option UserAuth → Call S User
  create_user_use_case data' agent_user = with_agent agent_user (create_as data')

  -- `DeleteUserUseCase.execute` behind the deletion of the preference.
  abbrev pub delete_last : UserAuth → User → Call S (Unit {0})
  delete_last agent user = do
    deleted ← Service.delete b now (text_of user.id) true agent.client_id
    raise_if (not deleted) not_deleted

  -- `DeleteUserUseCase.execute` behind the check of the permission.
  abbrev pub delete_allowed : UserAuth → User → UserPreference → Call S (Unit {0})
  delete_allowed agent user preference = do
    delete_own b now (text_of preference.id) true
    delete_last agent user

  -- `DeleteUserUseCase.execute` behind the two reads.
  abbrev pub delete_read : UserAuth → User → UserPreference → Call S (Unit {0})
  delete_read agent user preference = do
    raise_if (not (is_allowed_to_manage_user agent user)) may_not_delete
    delete_allowed agent user preference

  abbrev pub delete_found : String → UserAuth → User → Call S (Unit {0})
  delete_found id agent user = do
    preference ← get_by_user_id b now (str id)
    delete_read agent user preference

  -- `DeleteUserUseCase.execute` behind its guard.
  abbrev pub delete_as : String → UserAuth → Call S (Unit {0})
  delete_as id agent = do user ← Service.get_by_id b now id true; delete_found id agent user

  -- `DeleteUserUseCase.execute`
  unfoldable pub delete_user_use_case : String → Option UserAuth → Call S (Unit {0})
  delete_user_use_case id agent_user = with_agent agent_user (delete_as id)

  -- `GetUserUseCase.execute` behind its guard.
  abbrev pub get_as : String → UserAuth → Call S User
  get_as id agent = do user ← user_with_preference id; pure (set_password now "" user)

  -- `GetUserUseCase.execute`
  unfoldable pub get_user_use_case : String → Option UserAuth → Call S User
  get_user_use_case id agent_user = with_agent agent_user (get_as id)

  -- `ListUsersUseCase.execute`
  abbrev pub list_users_use_case : ListQuery → Call S (Pagination User)
  list_users_use_case query = Service.list b now query

  -- `userAuthToEncode`
  abbrev pub auth_payload : User → Value
  auth_payload user = obj (field "username" user.email (field "clientId" user.id end))

  -- `LoginUserUseCase.execute` behind the reading of the preference.
  abbrev pub log_in_with : User → UserPreference → Call S (User × String)
  log_in_with user preference = do
    let logged = set_password now "" (set_preference preference user)
    token ← encode_jwt b.node (auth_payload logged)
    pure (logged, token)

  -- `LoginUserUseCase.execute` behind the check of the password.
  abbrev pub log_in : User → User → Call S (User × String)
  log_in known user = do preference ← get_by_user_id b now known.id; log_in_with user preference

  -- `LoginUserUseCase.execute` behind the reading of the user.
  abbrev pub check_and_log_in : String → User → User → Call S (User × String)
  check_and_log_in password known user = do validate_password b now user password; log_in known user

  -- `LoginUserUseCase.execute` behind the search by e-mail.
  abbrev pub log_in_known : String → User → Call S (User × String)
  log_in_known password known = do
    user ← Service.get_by_id b now (text_of known.id) false
    check_and_log_in password known user

  abbrev pub log_in_found : String → Option User → Call S (User × String)
  log_in_found password found = do known ← or_raise found unknown_email; log_in_known password known

  -- `LoginUserUseCase.execute`
  unfoldable pub login_user_use_case : Value → String → Call S (User × String)
  login_user_use_case email password = do
    found ← Service.get_by_email b now email
    log_in_found password found

  -- `if (test) await call`
  abbrev when : {A : Type 0} → Bool → Call S A → Call S (Unit {0})
  when test call s = if test then (do call; pure tt) s else (ok tt, s)

  -- `mustUpdateUser` and `mustUpdateUserPreference`
  abbrev pub must_update_user : User → Value → Bool
  must_update_user user data' = must_update (obj (User.get_attributes user)) data'

  abbrev pub must_update_preference : UserPreference → Value → Bool
  must_update_preference preference data' =
      truthy data' && must_update (obj (UserPreference.get_attributes preference)) data'

  -- `UpdateUserUseCase.execute` behind the two reads.
  abbrev pub update_read : Value → UserAuth → User → UserPreference → Call S User
  update_read data' agent user preference = do
    raise_if (not (is_allowed_to_manage_user agent user)) may_not_update
    when (must_update_user user data') (Service.update b now (text_of user.id) data')
    when (must_update_preference preference (get data' "preference"))
        (update_own b now (text_of preference.id) (get data' "preference"))
    user_with_preference (text_of user.id)

  abbrev pub update_found : String → Value → UserAuth → User → Call S User
  update_found id data' agent user = do
    preference ← get_by_user_id b now (str id)
    update_read data' agent user preference

  -- `UpdateUserUseCase.execute` behind its guard.
  abbrev pub update_as : String → Value → UserAuth → Call S User
  update_as id data' agent = do
    user ← Service.get_by_id b now id true
    update_found id data' agent user

  -- `UpdateUserUseCase.execute`
  unfoldable pub update_user_use_case : String → Value → Option UserAuth → Call S User
  update_user_use_case id data' agent_user = with_agent agent_user (update_as id data')

-- ===== src/Api/Users.antt =====
-- src/modules/app/user/api/controllers/User.controller.ts, with what its annotations put before the
-- handlers. The check that an identifier is a UUID is left out.
use node_ddd_boilerplate_typ.Entities.User
use node_ddd_boilerplate_typ.Api.{Throttler, Tracked, guarded}
use node_ddd_boilerplate_typ.Base.{Option, String, map, ℕ}
use node_ddd_boilerplate_typ.Effects.{Call, Result, ok, pure, ◌>>=◌, ◌>>◌}
use node_ddd_boilerplate_typ.Entities.User.{User}
use node_ddd_boilerplate_typ.Platform.{Platform}
use node_ddd_boilerplate_typ.Repository.{Pagination}
use node_ddd_boilerplate_typ.Users.Query.{ListQuery}
use node_ddd_boilerplate_typ.Users.Service.{Backend, text_of}
use node_ddd_boilerplate_typ.Users.Strategy.{UserAuth}
use node_ddd_boilerplate_typ.Users.UseCases.{
  create_user_use_case, delete_user_use_case, get_user_use_case, list_users_use_case,
  login_user_use_case, update_user_use_case,
}
use node_ddd_boilerplate_typ.Value.{Date, Value, get, obj, put, str, undefined}

-- `getAttributes` of each entity.
abbrev pub mapped_content : Pagination User → Pagination Value
mapped_content list_info = record {
  content = map (λ u. obj (User.get_attributes u)) list_info.content;
  page_number = list_info.page_number;
  page_size = list_info.page_size;
  total_pages = list_info.total_pages;
  total_items = list_info.total_items;
}

abbrev pub attributes : {S : Type 0} → User → Call S Value
attributes u = pure (obj (User.get_attributes u))

-- `{ ...user.getAttributes(), token }`
abbrev pub with_token : {S : Type 0} → User × String → Call S Value
with_token (u, token) = pure (obj (put "token" (str token) (User.get_attributes u)))

module _ ⦃p : Platform⦄ {S : Type 0} (b : Backend S) (now : Date) where
  -- `listUsers`
  abbrev pub list_users_route : ListQuery → Call S (Pagination Value)
  list_users_route query = do found ← list_users_use_case b now query; pure (mapped_content found)

  -- `createUser`
  abbrev pub create_user_route : Option UserAuth → Value → Call S Value
  create_user_route user body = do result ← create_user_use_case b now body user; attributes result

  -- `loginUser`
  unfoldable pub login_user_route : Value → Call S Value
  login_user_route body = do
    result ← login_user_use_case b now (get body "email") (text_of (get body "password"))
    with_token result

  -- `getUser`
  abbrev pub get_user_route : String → Option UserAuth → Value → Call S Value
  get_user_route id user body = do result ← get_user_use_case b now id user; attributes result

  -- `updateUser`
  abbrev pub update_user_route : String → Option UserAuth → Value → Call S Value
  update_user_route id user body = do
    result ← update_user_use_case b now id body user
    attributes result

  -- `deleteUser`, which answers with the status 204.
  abbrev pub delete_user_route : String → Option UserAuth → Value → Call S ℕ
  delete_user_route id user body = do delete_user_use_case b now id user; pure 204

  module _ (throttler : Throttler S) (tracked : Tracked) (authorization : Option String) where
    -- A request to create a user, with the body that the validation makes of it.
    unfoldable pub create_user_request : Result Value → Call S Value
    create_user_request body = guarded throttler tracked b.node authorization body create_user_route

    -- A request to read a user.
    unfoldable pub get_user_request : String → Call S Value
    get_user_request id =
        guarded throttler tracked b.node authorization (ok undefined) (get_user_route id)

    -- A request to update a user.
    unfoldable pub update_user_request : String → Result Value → Call S Value
    update_user_request id body =
        guarded throttler tracked b.node authorization body (update_user_route id)

    -- A request to delete a user.
    unfoldable pub delete_user_request : String → Call S ℕ
    delete_user_request id =
        guarded throttler tracked b.node authorization (ok undefined) (delete_user_route id)

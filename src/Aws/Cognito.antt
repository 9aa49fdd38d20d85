-- ===== src/Aws/Cognito.antt =====
-- src/modules/core/infra/integration/aws/Cognito.client.ts
use node_ddd_boilerplate_typ.Aws.{
  AwsClient, caught_error, required, sent_list, sent_part, sent_status,
}
use node_ddd_boilerplate_typ.Base.{Bool, List, String, ℕ}
use node_ddd_boilerplate_typ.Effects.{Call, pure, rethrow, ◌>>=◌, ◌>>◌}
use node_ddd_boilerplate_typ.Platform.{Platform}
use node_ddd_boilerplate_typ.Value.{Fields, Value, arr, end, field, get, num, obj, str}

-- `signUpParams`
abbrev pub sign_up_params : String → String → String → String → Fields
sign_up_params client_id user_name user_email password = field "Username" (str user_name) (
    field "Password" (str password) (
      field "UserAttributes"
        (arr
          (field "0" (obj (field "Name" (str "email") (field "Value" (str user_email) end))) end))
        (field "ClientId" (str client_id) end)))

-- The input of the commands on a user of a pool.
abbrev pub user_params : String → String → Fields
user_params user_name user_pool_id =
    field "Username" (str user_name) (field "UserPoolId" (str user_pool_id) end)

-- The user that `getUser` builds from the answer.
abbrev pub user_of : Value → Value
user_of r = obj (
    field "Username" (get r "Username") (
      field "Enabled" (get r "Enabled") (
        field "UserStatus" (get r "UserStatus") (
          field "MFAOptions" (get r "MFAOptions") (
            field "UserCreateDate" (get r "UserCreateDate")
              (field "UserLastModifiedDate" (get r "UserLastModifiedDate") end))))))

-- The answer that `userSignUp` builds.
abbrev pub signed_up : Value → Value
signed_up r =
    obj (field "UserConfirmed" (get r "UserConfirmed") (field "UserSub" (get r "UserSub") end))

module _ ⦃p : Platform⦄ {S : Type 0} (client : AwsClient S) where
  -- The methods that send a command and answer with what they build from the result, of which a
  -- part must be there.
  abbrev pub sent_built :
      String → Fields → (Value → Value) → String → (Value → Value) → Call S Value
  sent_built command input part message build =
      rethrow
        (do result ← client.send command input; required message (part result); pure (build result))
        caught_error

  -- `listUserPools`
  unfoldable pub list_user_pools : ℕ → Call S (List Value)
  list_user_pools max =
      sent_list client "ListUserPools" (field "MaxResults" (num max) end) "UserPools"

  -- `createUserPool`
  unfoldable pub create_user_pool : String → Call S Value
  create_user_pool user_pool_name =
      sent_part client "CreateUserPool" (field "PoolName" (str user_pool_name) end)
        (λ r. get (get r "UserPool") "Id") "UserPool not created"

  -- `deleteUserPool`
  unfoldable pub delete_user_pool : String → Call S Bool
  delete_user_pool user_pool_id =
      sent_status client "DeleteUserPool" (field "UserPoolId" (str user_pool_id) end)

  -- `createClient`
  unfoldable pub create_client : String → String → Call S Value
  create_client client_name user_pool_id =
      sent_built "CreateUserPoolClient"
        (field "ClientName" (str client_name) (field "UserPoolId" (str user_pool_id) end))
        (λ r. get (get r "UserPoolClient") "ClientId") "Client not created"
        (λ r. get r "UserPoolClient")

  -- `deleteClient`
  unfoldable pub delete_client : String → String → Call S Bool
  delete_client client_id user_pool_id =
      sent_status client "DeleteUserPoolClient"
        (field "ClientId" (str client_id) (field "UserPoolId" (str user_pool_id) end))

  -- `createUser`
  unfoldable pub create_user : String → String → Call S Value
  create_user user_name user_pool_id =
      sent_built "AdminCreateUser" (user_params user_name user_pool_id)
        (λ r. get (get r "User") "Username") "User not created" (λ r. get r "User")

  -- `getUser`
  unfoldable pub get_user : String → String → Call S Value
  get_user user_name user_pool_id =
      sent_built "AdminGetUser" (user_params user_name user_pool_id) (λ r. get r "Username")
        "User not finded" user_of

  -- `deleteUser`
  unfoldable pub delete_pool_user : String → String → Call S Bool
  delete_pool_user user_name user_pool_id =
      sent_status client "AdminDeleteUser" (user_params user_name user_pool_id)

  -- `userSignUp`, where the first argument is the identifier of the client.
  unfoldable pub user_sign_up : String → String → String → String → Call S Value
  user_sign_up client_id user_name user_email user_password =
      sent_built "SignUp" (sign_up_params client_id user_name user_email user_password)
        (λ r. get r "UserConfirmed") "User not confirmed" signed_up

  -- `confirmUserSignUp`
  unfoldable pub confirm_user_sign_up : String → String → Call S Bool
  confirm_user_sign_up user_name user_pool_id =
      sent_status client "AdminConfirmSignUp" (user_params user_name user_pool_id)

-- ===== src/Users/Service.antt =====
-- src/modules/app/user/services/User.service.ts, and what it shares with UserPreference.service.ts.
pub mod Passwords
pub mod Laws
mod Tests
use Prim.Native.Char.{code}
use node_ddd_boilerplate_typ.Entities.User
use node_ddd_boilerplate_typ.Entities.UserPreference
use node_ddd_boilerplate_typ.Base.{
  Bool, Option, String, [], concat, eqb, false, if◌then◌else◌, is_empty_text, none, not, some, true,
  ◌||◌, ◌∷◌,
}
use node_ddd_boilerplate_typ.Cryptography.{NodeCrypto, compare_buffer, generate_salt, hashing}
use node_ddd_boilerplate_typ.Effects.{Call, or_raise, pure, raise, raise_if, rethrow, ◌>>=◌, ◌>>◌}
use node_ddd_boilerplate_typ.Entities.User.{User, new_user, set_password}
use node_ddd_boilerplate_typ.Exceptions.{
  Error, business, conflict, exception, internal, not_found, plain, unauthorized, with_message,
}
use node_ddd_boilerplate_typ.Platform.{Platform}
use node_ddd_boilerplate_typ.Repository.{Pagination}
use node_ddd_boilerplate_typ.Store.{ResourceRepo, only_where}
use node_ddd_boilerplate_typ.Users.Query.{ListQuery, equal}
use node_ddd_boilerplate_typ.Users.Repository.{
  create_user, delete_user, find_user, get_user_by_id, list_users, update_user,
}
use node_ddd_boilerplate_typ.Value.{
  Date, Fields, Value, find, has_length, null, omit, put, str, undefined,
}

-- What the services work with: the cryptography, the tables and the application's secret.
pub record Backend (S : Type 0) : Type 0 where
  pub node : NodeCrypto S
  pub users : ResourceRepo S
  pub preferences : ResourceRepo S
  pub secret : String

-- The first part of `text.split('|')`, and what stands behind the first bar.
abbrev pub before_bar : String → String
before_bar String.[] = String.[]
before_bar (String.◌∷◌ c s) = if eqb (code c) b'|' then String.[] else String.◌∷◌ c (before_bar s)

abbrev pub after_bar : String → Option String
after_bar String.[] = none
after_bar (String.◌∷◌ c s) = if eqb (code c) b'|' then some s else after_bar s

-- The second part of `text.split('|')`.
abbrev pub second_part : Option String → Option String
second_part none = none
second_part (some s) = some (before_bar s)

-- The text of a value that has a length.
abbrev pub text_of : Value → String
text_of (str s) = s
text_of _ = ""

-- `!text?.length`
abbrev pub has_no_length : Option String → Bool
has_no_length none = true
has_no_length (some s) = is_empty_text s

abbrev pub or_text : Option String → String → String
or_text none t = t
or_text (some s) t = s

module _ ⦃p : Platform⦄ where
  -- `caughtError` of both services; every error has a message.
  abbrev pub caught_error : Error → Error
  caught_error e =
      exception internal
        (record (with_message "Error to comunicate with database") { details = str e.message })
        false

  abbrev pub user_not_found : Error
  user_not_found = exception not_found (with_message "User not founded by ID!") false

  abbrev pub incorrect_password : Error
  incorrect_password =
      exception unauthorized
        (record (with_message "Incorrect password") {
          details = str "Password hash is different from database";
        })
        false

  abbrev pub invalid_password : Error
  invalid_password = exception unauthorized (with_message "Invalid password") false

  abbrev pub invalid_parts : Error
  invalid_parts =
      exception internal
        (record (with_message "Error to get password") { details = str "Invalid salt or hash" })
        false

  -- The error of `timingSafeEqual` on different lengths.
  abbrev pub range_error : Error
  range_error = record {
    info = record (with_message "Input buffers must have the same byte length") {
      name = some "RangeError";
    };
    origin = plain;
  }

module _ ⦃p : Platform⦄ {S : Type 0} (b : Backend S) (now : Date) where
  -- `UserService.getById`
  unfoldable pub get_by_id : String → Bool → Call S User
  get_by_id id without_password =
      rethrow
        (do user ← get_user_by_id b.users now id without_password; or_raise user user_not_found)
        caught_error

  -- `UserService.getByEmail`
  unfoldable pub get_by_email : Value → Call S (Option User)
  get_by_email email =
      rethrow (find_user b.users now (only_where (("email", equal email) ∷ []))) caught_error

  -- The hash of `protectPassword` and `validatePassword`.
  abbrev pub password_hash : String → String → Option String
  password_hash salt password = hashing b.node (concat salt (concat password b.secret))

  -- `protectPassword` behind its salt.
  abbrev protect_with : String → String → Call S String
  protect_with salt password = do
    raise_if (is_empty_text salt) (exception internal (with_message "Error to generate salt") false)
    let hash = password_hash salt password
    raise_if (has_no_length hash) (exception internal (with_message "Error to generate hash") false)
    pure (concat salt (concat "|" (or_text hash "")))

  -- `protectPassword`
  unfoldable pub protect_password : String → Call S String
  protect_password password = do salt ← generate_salt b.node; protect_with salt password

  -- `UserService.create` behind the protection of the password.
  abbrev pub create_protected : User → String → Call S User
  create_protected entity protected = do
    created ← create_user b.users now (set_password now protected entity)
    pure (set_password now "" created)

  -- `UserService.create`
  unfoldable pub create : User → Call S User
  create entity =
      rethrow
        (do
          raise_if (not (has_length entity.password))
              (exception business (with_message "Invalid password") false)
          protected ← protect_password (text_of entity.password)
          create_protected entity protected)
        caught_error

  -- `userData`, the attributes of the input without `id`, `createdAt` and `preference`.
  abbrev pub user_data : Value → Fields
  user_data data' =
      omit "preference" (omit "createdAt" (omit "id" (User.get_attributes (new_user now data'))))

  -- `if (userPassword?.length) userData.password = protectPassword(userPassword)`
  abbrev pub with_protected : Fields → Call S Fields
  with_protected fs =
      if has_length (find "password" fs)
      then (do
        protected ← protect_password (text_of (find "password" fs))
        pure (put "password" (str protected) fs))
      else pure fs

  -- `UserService.update` behind the protection of the password.
  abbrev pub update_protected : String → Fields → Call S User
  update_protected id fs = do
    updated ← update_user b.users now id fs
    user ← or_raise updated (exception conflict (with_message "User not updated!") false)
    pure (set_password now "" user)

  -- `UserService.update`
  unfoldable pub update : String → Value → Call S User
  update id data' =
      rethrow (do fs ← with_protected (user_data data'); update_protected id fs) caught_error

  -- `String(value)`
  abbrev pub string_of : Value → Value
  string_of undefined = str "undefined"
  string_of null = str "null"
  string_of (str s) = str s
  string_of v = str (p.to_text v)

  -- `UserService.delete`
  unfoldable pub delete : String → Bool → Value → Call S Bool
  delete id soft_delete agent_user_id =
      rethrow (delete_user b.users now id soft_delete (string_of agent_user_id)) caught_error

  -- `UserService.list`
  unfoldable pub list : ListQuery → Call S (Pagination User)
  list query = rethrow (list_users b.users now query true) caught_error

  -- `isSameHash` on a hash that is there.
  abbrev is_same_hash : String → Option String → Option Bool
  is_same_hash h1 h2 = compare_buffer b.node h1 (or_text h2 "h2")

  abbrev same_or_raise : Option Bool → Call S (Unit {0})
  same_or_raise none = raise range_error
  same_or_raise (some same) = raise_if (not same) incorrect_password

  -- `validatePassword` on the stored text.
  abbrev pub validate_parts : String → Option String → String → Call S (Unit {0})
  validate_parts salt hash password = do
    raise_if (is_empty_text salt || has_no_length hash) invalid_parts
    same_or_raise (is_same_hash (or_text hash "") (password_hash salt password))

  -- `validatePassword`
  unfoldable pub validate_password : User → String → Call S (Unit {0})
  validate_password entity password = do
    raise_if (not (has_length entity.password)) invalid_password
    validate_parts (before_bar (text_of entity.password))
        (second_part (after_bar (text_of entity.password))) password

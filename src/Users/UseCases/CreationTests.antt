-- ===== src/Users/UseCases/CreationTests.antt =====
-- The creation of a user in empty tables.
use node_ddd_boilerplate_typ.Users.Service
use node_ddd_boilerplate_typ.Repository
use node_ddd_boilerplate_typ.Base.{none, refl, some, true, ◌≡◌}
use node_ddd_boilerplate_typ.Effects.{Result, ok, rethrow, throw}
use node_ddd_boilerplate_typ.Entities.User.{User, new_user, set_preference}
use node_ddd_boilerplate_typ.Entities.UserPreference.{
  UserPreference, new_user_preference, set_user_id,
}
use node_ddd_boilerplate_typ.Repository.{find_one}
use node_ddd_boilerplate_typ.Users.Example.{
  Tables, ann, ann_auth, ann_preference, backend, no_rows, platform, time,
}
use node_ddd_boilerplate_typ.Users.Mapper.{preference_to_database, user_to_database}
use node_ddd_boilerplate_typ.Users.PreferenceService.{create_own, get_by_user_id}
use node_ddd_boilerplate_typ.Users.Repository.{get_user_by_id}
use node_ddd_boilerplate_typ.Users.Service.{get_by_email, protect_password, text_of}
use node_ddd_boilerplate_typ.Users.UseCases.{create_user_use_case}
use node_ddd_boilerplate_typ.Users.UseCases.Guarantees.{Created, create_user_use_case_sound}
use node_ddd_boilerplate_typ.Users.UseCases.Successes.{create_user_use_case-ok}
use node_ddd_boilerplate_typ.Value.{Value, end, field, get, obj, str}

abbrev newcomer : Value
newcomer = obj (field "email" (str "c@b.c") (field "password" (str "pw") end))

-- What a call returns, where it returns.
abbrev returned : {A : Type 0} → A → Result A → A
returned other (ok a) = a
returned other (throw e) = other

abbrev creation : Result User × Tables
creation =
    Service.create ⦃p = platform⦄ backend time (new_user ⦃p = platform⦄ time newcomer) no_rows

abbrev created_user : User
created_user = returned ann creation.0

abbrev own_creation : Result UserPreference × Tables
own_creation =
    create_own ⦃p = platform⦄ backend time
      (set_user_id time (text_of created_user.id)
        (new_user_preference ⦃p = platform⦄ time (get newcomer "preference")))
      creation.1

abbrev read_user : User
read_user =
    returned ann
      (Service.get_by_id ⦃p = platform⦄ backend time (text_of created_user.id) true
        own_creation.1).0

abbrev read_preference : UserPreference
read_preference =
    returned ann_preference
      (get_by_user_id ⦃p = platform⦄ backend time (str (text_of created_user.id)) own_creation.1).0

nobody :
    Service.get_by_email ⦃p = platform⦄ backend time
      (new_user ⦃p = platform⦄ time newcomer).email
      no_rows
    ≡ (ok none, no_rows)
unfolding Service.get_by_email find_one rethrow
nobody = refl

user_made : creation ≡ (ok created_user, creation.1)
unfolding Service.create rethrow Repository.create new_user protect_password
user_made = refl

preference_made : own_creation ≡ (ok (returned ann_preference own_creation.0), own_creation.1)
unfolding create_own Service.create rethrow Repository.create new_user protect_password
preference_made = refl

user_read :
    Service.get_by_id ⦃p = platform⦄ backend time (text_of created_user.id) true own_creation.1
    ≡ (ok read_user, own_creation.1)
unfolding Service.get_by_id get_user_by_id find_one create_own Service.create rethrow
    Repository.create new_user protect_password user_to_database
user_read = refl

preference_read :
    get_by_user_id ⦃p = platform⦄ backend time (str (text_of created_user.id)) own_creation.1
    ≡ (ok read_preference, own_creation.1)
unfolding get_by_user_id find_one create_own Service.create rethrow Repository.create new_user
    protect_password preference_to_database
preference_read = refl

created_both :
    create_user_use_case ⦃p = platform⦄ backend time newcomer (some ann_auth) no_rows
    ≡ (ok (set_preference read_preference read_user), own_creation.1)
created_both =
    create_user_use_case-ok ⦃p = platform⦄ backend time ann_auth newcomer created_user read_user
      (returned ann_preference own_creation.0) read_preference no_rows creation.1 own_creation.1
      refl nobody user_made preference_made user_read preference_read

create_user_use_case_sound_example :
    Created ⦃p = platform⦄ backend time newcomer
      (some ann_auth)
      (set_preference read_preference read_user)
      no_rows
      own_creation.1
create_user_use_case_sound_example =
    create_user_use_case_sound ⦃p = platform⦄ backend time newcomer (some ann_auth)
      (set_preference read_preference read_user) no_rows own_creation.1 created_both

-- ===== src/Users/UseCases/Tests.antt =====
-- The theorems on the use cases at concrete tables.
use node_ddd_boilerplate_typ.Users.Service
use node_ddd_boilerplate_typ.Entities.User
use node_ddd_boilerplate_typ.Base.{false, none, refl, some, true, ◌≡◌}
use node_ddd_boilerplate_typ.Effects.{Ensures, ok, rethrow, throw}
use node_ddd_boilerplate_typ.Entities.User.{User, new_user, set_password, set_preference}
use node_ddd_boilerplate_typ.Entities.UserPreference.{new_user_preference}
use node_ddd_boilerplate_typ.Exceptions.{exception}
use node_ddd_boilerplate_typ.Repository.{delete_one, delete_one_with, find_one}
use node_ddd_boilerplate_typ.Users.Example.{
  Tables, ann, ann_auth, ann_preference, ann_row, backend, bob_auth, no_rows, platform, tables,
  time,
}
use node_ddd_boilerplate_typ.Users.Mapper.{user_to_domain}
use node_ddd_boilerplate_typ.Users.PreferenceService.{delete_own, get_by_user_id}
use node_ddd_boilerplate_typ.Users.Repository.{empty_query, get_user_by_id}
use node_ddd_boilerplate_typ.Users.Service.{
  delete, get_by_email, incorrect_password, text_of, validate_password,
}
use node_ddd_boilerplate_typ.Users.Service.Laws.{HasNoPassword}
use node_ddd_boilerplate_typ.Users.Strategy.{
  is_allowed_to_manage_user, must_update, must_update_any,
}
use node_ddd_boilerplate_typ.Users.UseCases.{
  create_user_use_case, delete_user_use_case, get_user_use_case, invalid_agent, list_users_use_case,
  login_user_use_case, may_not_delete, may_not_update, must_update_user, unknown_email,
  update_user_use_case, user_exists,
}
use node_ddd_boilerplate_typ.Users.UseCases.Guarantees.{
  Deleted, LoggedIn, delete_user_use_case_sound, login_user_use_case_sound,
}
use node_ddd_boilerplate_typ.Users.UseCases.Laws.{
  create_user_use_case-conflict, login_user_use_case-unknown, login_user_use_case-wrong_password,
  update_user_use_case-unchanged, use_cases_forbidden, use_cases_unauthorized,
}
use node_ddd_boilerplate_typ.Users.UseCases.Reads.{use_cases_hide_password, use_cases_read}
use node_ddd_boilerplate_typ.Users.UseCases.Successes.{
  delete_user_use_case-ok, login_user_use_case-ok,
}
use node_ddd_boilerplate_typ.Value.{Value, end, field, obj, str}

-- Ann's row is found, by whatever identifier.
found_ann : Service.get_by_id ⦃p = platform⦄ backend time "u1" true tables ≡ (ok ann, tables)
unfolding Service.get_by_id get_user_by_id find_one rethrow
found_ann = refl

read_ann : Service.get_by_id ⦃p = platform⦄ backend time "u1" false tables ≡ (ok ann, tables)
unfolding Service.get_by_id get_user_by_id find_one rethrow
read_ann = refl

found_preference :
    get_by_user_id ⦃p = platform⦄ backend time (str "u1") tables ≡ (ok ann_preference, tables)
unfolding get_by_user_id find_one rethrow
found_preference = refl

found_email :
    Service.get_by_email ⦃p = platform⦄ backend time (str "a@b.c") tables ≡ (ok (some ann), tables)
unfolding Service.get_by_email find_one rethrow
found_email = refl

no_email :
    Service.get_by_email ⦃p = platform⦄ backend time (str "a@b.c") no_rows ≡ (ok none, no_rows)
unfolding Service.get_by_email find_one rethrow
no_email = refl

wrong_password :
    validate_password ⦃p = platform⦄ backend time ann "other" tables
    ≡ (throw (incorrect_password ⦃p = platform⦄), tables)
unfolding validate_password user_to_domain new_user new_user_preference set_preference exception
wrong_password = refl

ann_allowed : is_allowed_to_manage_user ann_auth ann ≡ true
unfolding is_allowed_to_manage_user user_to_domain new_user new_user_preference set_preference
ann_allowed = refl

bob_not_allowed : is_allowed_to_manage_user bob_auth ann ≡ false
unfolding is_allowed_to_manage_user user_to_domain new_user new_user_preference set_preference
bob_not_allowed = refl

-- The same e-mail and no preference.
abbrev same_email : Value
same_email = obj (field "email" (str "a@b.c") end)

ann_same : must_update_user ⦃p = platform⦄ backend time ann same_email ≡ false
unfolding must_update must_update_any User.get_attributes user_to_domain new_user
    new_user_preference set_preference
ann_same = refl

ann_email : (new_user ⦃p = platform⦄ time ann_row).email ≡ str "a@b.c"
unfolding new_user
ann_email = refl

use_cases_unauthorized_example :
    (create_user_use_case ⦃p = platform⦄ backend time ann_row none tables
      ≡ (throw (invalid_agent ⦃p = platform⦄), tables))
    × (get_user_use_case ⦃p = platform⦄ backend time "u1" none tables
        ≡ (throw (invalid_agent ⦃p = platform⦄), tables))
    × (update_user_use_case ⦃p = platform⦄ backend time "u1" ann_row none tables
        ≡ (throw (invalid_agent ⦃p = platform⦄), tables))
    × (delete_user_use_case ⦃p = platform⦄ backend time "u1" none tables
        ≡ (throw (invalid_agent ⦃p = platform⦄), tables))
use_cases_unauthorized_example =
    use_cases_unauthorized ⦃p = platform⦄ backend time none "u1" ann_row tables refl

create_user_use_case-conflict_example :
    create_user_use_case ⦃p = platform⦄ backend time ann_row (some bob_auth) tables
    ≡ (throw (user_exists ⦃p = platform⦄), tables)
create_user_use_case-conflict_example =
    create_user_use_case-conflict ⦃p = platform⦄ backend time bob_auth ann_row ann tables refl
      (rw ann_email found_email)

use_cases_forbidden_example :
    (update_user_use_case ⦃p = platform⦄ backend time "u1" same_email (some bob_auth) tables
      ≡ (throw (may_not_update ⦃p = platform⦄), tables))
    × (delete_user_use_case ⦃p = platform⦄ backend time "u1" (some bob_auth) tables
        ≡ (throw (may_not_delete ⦃p = platform⦄), tables))
use_cases_forbidden_example =
    use_cases_forbidden ⦃p = platform⦄ backend time bob_auth "u1" same_email ann ann_preference
      tables refl found_ann found_preference bob_not_allowed

update_user_use_case-unchanged_example :
    (update_user_use_case ⦃p = platform⦄ backend time "u1" same_email (some ann_auth) tables).1
    ≡ tables
update_user_use_case-unchanged_example =
    update_user_use_case-unchanged ⦃p = platform⦄ backend time ann_auth "u1" same_email ann
      ann_preference tables refl found_ann found_preference ann_allowed ann_same refl

login_user_use_case-unknown_example :
    login_user_use_case ⦃p = platform⦄ backend time (str "a@b.c") "pw" no_rows
    ≡ (throw (unknown_email ⦃p = platform⦄), no_rows)
login_user_use_case-unknown_example =
    login_user_use_case-unknown ⦃p = platform⦄ backend time (str "a@b.c") "pw" no_rows no_email

ann_id : text_of ann.id ≡ "u1"
unfolding user_to_domain new_user new_user_preference set_preference
ann_id = refl

login_user_use_case-wrong_password_example :
    login_user_use_case ⦃p = platform⦄ backend time (str "a@b.c") "other" tables
    ≡ (throw (incorrect_password ⦃p = platform⦄), tables)
login_user_use_case-wrong_password_example =
    login_user_use_case-wrong_password ⦃p = platform⦄ backend time (str "a@b.c") "other" ann ann
      (incorrect_password ⦃p = platform⦄) tables found_email (rw ann_id read_ann) wrong_password

use_cases_hide_password_example :
    Ensures HasNoPassword
      (get_user_use_case ⦃p = platform⦄ backend time "u1" (some ann_auth) tables).0
    × Ensures
        (λ r. HasNoPassword r.0)
        (login_user_use_case ⦃p = platform⦄ backend time (str "a@b.c") "pw" tables).0
use_cases_hide_password_example =
    use_cases_hide_password ⦃p = platform⦄ backend time (some ann_auth) "u1" "pw" (str "a@b.c")
      tables

use_cases_read_example :
    ((get_user_use_case ⦃p = platform⦄ backend time "u1" (some ann_auth) tables).1 ≡ tables)
    × ((list_users_use_case ⦃p = platform⦄ backend time empty_query tables).1 ≡ tables)
    × ((login_user_use_case ⦃p = platform⦄ backend time (str "a@b.c") "pw" tables).1 ≡ tables)
use_cases_read_example =
    use_cases_read ⦃p = platform⦄ backend time (some ann_auth) "u1" "pw" (str "a@b.c") empty_query
      tables

right_password : validate_password ⦃p = platform⦄ backend time ann "pw" tables ≡ (ok tt, tables)
unfolding validate_password user_to_domain new_user new_user_preference set_preference
right_password = refl

found_own : get_by_user_id ⦃p = platform⦄ backend time ann.id tables ≡ (ok ann_preference, tables)
unfolding get_by_user_id find_one rethrow
found_own = refl

logged_in :
    login_user_use_case ⦃p = platform⦄ backend time (str "a@b.c") "pw" tables
    ≡ (ok (set_password time "" (set_preference ann_preference ann), "token"), tables)
logged_in =
    login_user_use_case-ok ⦃p = platform⦄ backend time (str "a@b.c") "pw" "token" ann ann
      ann_preference tables found_email (rw ann_id read_ann) right_password found_own refl

-- The tables behind the two deletions.
abbrev one_gone : Tables
one_gone = (delete_own ⦃p = platform⦄ backend time (text_of ann_preference.id) true tables).1

abbrev both_gone : Tables
both_gone = (Service.delete ⦃p = platform⦄ backend time (text_of ann.id) true (str "u1") one_gone).1

preference_gone :
    delete_own ⦃p = platform⦄ backend time (text_of ann_preference.id) true tables
    ≡ (ok true, one_gone)
unfolding delete_own delete_one rethrow
preference_gone = refl

user_gone :
    Service.delete ⦃p = platform⦄ backend time (text_of ann.id) true (str "u1") one_gone
    ≡ (ok true, both_gone)
unfolding Service.delete delete_one_with rethrow delete_own delete_one
user_gone = refl

deleted_both :
    delete_user_use_case ⦃p = platform⦄ backend time "u1" (some ann_auth) tables
    ≡ (ok tt, both_gone)
deleted_both =
    delete_user_use_case-ok ⦃p = platform⦄ backend time ann_auth "u1" ann ann_preference true true
      tables one_gone both_gone refl found_ann found_preference ann_allowed preference_gone
      user_gone

login_user_use_case_sound_example :
    LoggedIn ⦃p = platform⦄ backend time
      (str "a@b.c")
      "pw"
      (set_password time "" (set_preference ann_preference ann))
      "token"
      tables
login_user_use_case_sound_example =
    login_user_use_case_sound ⦃p = platform⦄ backend time (str "a@b.c") "pw" "token"
      (set_password time "" (set_preference ann_preference ann)) tables tables logged_in

delete_user_use_case_sound_example :
    Deleted ⦃p = platform⦄ backend time "u1" (some ann_auth) tables both_gone
delete_user_use_case_sound_example =
    delete_user_use_case_sound ⦃p = platform⦄ backend time "u1" (some ann_auth) tt tables both_gone
      deleted_both

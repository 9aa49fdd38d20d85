-- ===== src/Users/Mapper/Tests.antt =====
-- The theorems on the mappers at a concrete user and preference.
use node_ddd_boilerplate_typ.Entities.User
use node_ddd_boilerplate_typ.Base.{if◌then◌else◌, is_some, refl, true, ◌==◌, ◌≡◌}
use node_ddd_boilerplate_typ.Entities.User.{User}
use node_ddd_boilerplate_typ.Entities.UserPreference.{UserPreference}
use node_ddd_boilerplate_typ.Users.Example.{ann, ann_row, platform, time}
use node_ddd_boilerplate_typ.Users.Mapper.{
  preference_to_database, preference_to_domain, user_to_database, user_to_domain,
}
use node_ddd_boilerplate_typ.Users.Mapper.Laws.{
  preference_round_trip, user_to_database-find, user_to_domain-is_some,
}
use node_ddd_boilerplate_typ.Value.{at_ms, fields_of, find, get, null, obj, put, str, undefined}

user_to_database-find_example : get (user_to_database ann) "email" ≡ (
    if "preference" == "email"
    then undefined
    else if "id" == "email"
    then undefined
    else find "email" (User.get_attributes ann))
user_to_database-find_example = user_to_database-find ann "email"

user_to_domain-is_some_example :
    is_some (user_to_domain ⦃p = platform⦄ time ann_row).preference ≡ true
user_to_domain-is_some_example = user_to_domain-is_some ⦃p = platform⦄ time ann_row

abbrev dark : UserPreference
dark = record {
  id = undefined;
  user_id = str "u1";
  image_path = null;
  default_theme = str "DARK";
  created_at = at_ms 1;
  updated_at = null;
  deleted_at = null;
}

preference_round_trip_example :
    preference_to_domain ⦃p = platform⦄ time
      (obj (put "id" (str "p1") (fields_of (preference_to_database dark))))
    ≡ record dark { id = str "p1"; created_at = time }
preference_round_trip_example = preference_round_trip ⦃p = platform⦄ time dark "p1" (record {
  id_not_null = refl;
  user_id_not_null = refl;
  image_path_defined = refl;
  default_theme_defined = refl;
  updated_at_defined = refl;
  deleted_at_defined = refl;
})

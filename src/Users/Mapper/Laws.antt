-- ===== src/Users/Mapper/Laws.antt =====
-- What the mappers keep of an entity.
use node_ddd_boilerplate_typ.Entities.User
use node_ddd_boilerplate_typ.Entities.UserPreference
use node_ddd_boilerplate_typ.Base.{
  Option, String, ap, if◌then◌else◌, is_some, none, refl, some, true, ◌==◌, ◌∙◌, ◌≡◌,
}
use node_ddd_boilerplate_typ.Entities.Abstract.{assign-or_undefined, assign_undefined, get_date}
use node_ddd_boilerplate_typ.Entities.User.{User, new_user, set_preference}
use node_ddd_boilerplate_typ.Entities.UserPreference.{UserPreference, new_user_preference}
use node_ddd_boilerplate_typ.Platform.{Platform}
use node_ddd_boilerplate_typ.Users.Mapper.{
  preference_to_database, preference_to_domain, user_to_database, user_to_domain, with_preference,
}
use node_ddd_boilerplate_typ.Value.{
  Date, Value, fields_of, find, get, obj, omit, put, str, undefined,
}
use node_ddd_boilerplate_typ.Value.Laws.{find-omit}

-- No identifier and no preference is written with a user: the database makes the one and has a
-- table for the other; every other attribute is written.
pub user_to_database-find :
    (u : User) (k : String)
    → get (user_to_database u) k ≡ (
        if "preference" == k
        then undefined
        else if "id" == k
        then undefined
        else find k (User.get_attributes u))
unfolding user_to_database
user_to_database-find u k =
    find-omit "preference" k (omit "id" (User.get_attributes u))
    ∙ ap (λ v. if "preference" == k then undefined else v)
        (find-omit "id" k (User.get_attributes u))

module _ ⦃p : Platform⦄ (now : Date) where
  with_preference-is_some :
      (row : Value) (u : User) (o : Option UserPreference)
      → u.preference ≡ o
      → is_some (with_preference now row u o).preference ≡ true
  unfolding set_preference
  with_preference-is_some row u none e = refl
  with_preference-is_some row u (some x) e = rw e refl

  -- A user from the database always has a preference.
  pub user_to_domain-is_some : (row : Value) → is_some (user_to_domain now row).preference ≡ true
  unfolding user_to_domain
  user_to_domain-is_some row = with_preference-is_some row (new_user now row) _ refl

  -- A well-formed preference that is written and read back under an identifier is the same, with
  -- that identifier and with the time of the read as its creation date.
  pub preference_round_trip :
      (e : UserPreference) (id : String)
      → UserPreference.Laws.IsWellFormed e
      → preference_to_domain now (obj (put "id" (str id) (fields_of (preference_to_database e))))
        ≡ record e { id = str id; created_at = now }
  unfolding preference_to_database new_user_preference UserPreference.get_attributes get_date
  preference_round_trip e id h = λ i. record {
    id = str id;
    user_id = assign_undefined e.user_id h.user_id_not_null i;
    image_path = assign-or_undefined e.image_path h.image_path_defined i;
    default_theme = assign-or_undefined e.default_theme h.default_theme_defined i;
    created_at = now;
    updated_at = assign-or_undefined e.updated_at h.updated_at_defined i;
    deleted_at = assign-or_undefined e.deleted_at h.deleted_at_defined i;
  }

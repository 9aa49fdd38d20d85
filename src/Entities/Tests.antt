-- ===== src/Entities/Tests.antt =====
-- Runs, and the theorems at concrete entities.
use node_ddd_boilerplate_typ.Entities.User
use node_ddd_boilerplate_typ.Entities.Subscription
use node_ddd_boilerplate_typ.Base.{arith, is_some, none, refl, some, true, ◌≡◌}
use node_ddd_boilerplate_typ.Entities.Abstract.{get_date}
use node_ddd_boilerplate_typ.Entities.Subscription.{Subscription, new_subscription}
use node_ddd_boilerplate_typ.Entities.Subscription.Laws.{
  new_subscription-cached, new_subscription-get_attributes,
}
use node_ddd_boilerplate_typ.Entities.User.{
  User, new_user, set_deleted_by, set_doc_infos, set_email, set_full_name, set_phone,
}
use node_ddd_boilerplate_typ.Entities.User.Laws.{
  new_user-IsWellFormed, new_user-created_at, new_user-get_attributes, recreated, set_id_lem,
  setters-IsWellFormed,
}
use node_ddd_boilerplate_typ.Entities.UserPreference.{
  UserPreference, new_user_preference, set_default_theme,
}
use node_ddd_boilerplate_typ.Entities.UserPreference.Laws.{set_default_theme_lem}
use node_ddd_boilerplate_typ.Platform.{Platform}
use node_ddd_boilerplate_typ.Value.{Value, at_ms, bool, date, end, field, null, obj, str, undefined}

abbrev clockless : Platform
clockless = record {
  stringify = λ v. some "{}";
  parse = λ t. none;
  to_text = λ v. "text";
  from_iso = λ s. at_ms 7;
  to_upper_case = λ s. s;
  to_iso = λ d. "iso";
}

-- A row of the database, with its preference.
abbrev row : Value
row = obj (
    field "id" (str "u1") (
      field "email" (str "a@b.c") (
        field "phone" null (
          field "createdAt" (date (at_ms 1)) (
            field "preference" (obj (field "id" (str "p1") (field "defaultTheme" (str "DARK") end)))
              end)))))

abbrev ann : User
ann = new_user ⦃p = clockless⦄ (at_ms 9) row

ann-preference :
    (ann.created_at ≡ at_ms 9)
    × (ann.phone ≡ null)
    × (ann.full_name ≡ undefined)
    × (is_some ann.preference ≡ true)
unfolding new_user new_user_preference get_date
ann-preference = (refl, refl, refl, refl)

ann-IsWellFormed : User.Laws.IsWellFormed ann
ann-IsWellFormed = User.Laws.new_user-IsWellFormed ⦃p = clockless⦄ (at_ms 9) row

setters-IsWellFormed_example :
    User.Laws.IsWellFormed (set_full_name (at_ms 9) "a" ann)
    × User.Laws.IsWellFormed (set_email (at_ms 9) "a" ann)
    × User.Laws.IsWellFormed (set_phone (at_ms 9) "a" ann)
    × User.Laws.IsWellFormed (set_doc_infos (at_ms 9) "a" "b" "c" ann)
    × User.Laws.IsWellFormed (set_deleted_by (at_ms 9) "a" ann)
setters-IsWellFormed_example =
    User.Laws.setters-IsWellFormed (at_ms 9) ann ann-IsWellFormed "a" "b" "c"

new_user-IsWellFormed_example : User.Laws.IsWellFormed (new_user ⦃p = clockless⦄ (at_ms 9) row)
new_user-IsWellFormed_example = User.Laws.new_user-IsWellFormed ⦃p = clockless⦄ (at_ms 9) row

new_user-get_attributes_example :
    new_user ⦃p = clockless⦄ (at_ms 20) (obj (User.get_attributes ann)) ≡ recreated (at_ms 20) ann
new_user-get_attributes_example =
    new_user-get_attributes ⦃p = clockless⦄ (at_ms 20) ann ann-IsWellFormed

new_user-created_at_example :
    ((new_user ⦃p = clockless⦄
        (at_ms 9)
        (obj (field "createdAt" (str "2020-01-01") end))).created_at
      ≡ at_ms 7)
    × ((new_user ⦃p = clockless⦄ (at_ms 9) row).created_at ≡ at_ms 9)
new_user-created_at_example =
    new_user-created_at ⦃p = clockless⦄ (at_ms 9) (obj (field "createdAt" (str "2020-01-01") end))
      row "2020-01-01" (at_ms 1) refl refl refl

abbrev dark : UserPreference
dark = record {
  id = str "p1";
  user_id = undefined;
  image_path = null;
  default_theme = str "DARK";
  created_at = at_ms 9;
  updated_at = null;
  deleted_at = null;
}

set_id_lem_example :
    let bob = record ann { preference = some dark } in
    User.set_id (at_ms 30) "u2" bob ≡ record bob {
      id = str "u2";
      preference = some (record dark { user_id = str "u2"; updated_at = date (at_ms 30) });
      updated_at = date (at_ms 30);
    }
set_id_lem_example = set_id_lem (at_ms 30) "u2" (record ann { preference = some dark }) dark refl

set_default_theme_lem_example :
    set_default_theme ⦃p = clockless⦄ (at_ms 9) "LIGHT" dark
    ≡ record dark { default_theme = str "LIGHT"; updated_at = date (at_ms 9) }
set_default_theme_lem_example =
    set_default_theme_lem ⦃p = clockless⦄ (at_ms 9) "LIGHT" dark (λ t h. refl)

abbrev listener : Subscription
listener = record {
  database_id = str "s1";
  subscription_id = str "socket";
  client_id = null;
  created_at = at_ms 1;
  updated_at = null;
  new_connections_listen = bool true;
}

listener-IsWellFormed : Subscription.Laws.IsWellFormed listener
listener-IsWellFormed = ground arith

new_subscription-get_attributes_example :
    new_subscription ⦃p = clockless⦄ (at_ms 2) (obj (Subscription.get_attributes listener))
    ≡ record listener { created_at = at_ms 2 }
new_subscription-get_attributes_example =
    new_subscription-get_attributes ⦃p = clockless⦄ (at_ms 2) listener listener-IsWellFormed

new_subscription-cached_example :
    new_subscription ⦃p = clockless⦄ (at_ms 2) (
      obj (
        field "key"
          (str "subscriptions:socket")
          (field "value" (obj (Subscription.get_attributes listener)) end)))
    ≡ new_subscription ⦃p = clockless⦄ (at_ms 2) (obj (Subscription.get_attributes listener))
new_subscription-cached_example =
    new_subscription-cached ⦃p = clockless⦄ (at_ms 2) (str "subscriptions:socket") listener

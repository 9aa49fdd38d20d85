-- ===== src/Users/Strategy/Tests.antt =====
-- Runs, and the theorems at concrete users.
use node_ddd_boilerplate_typ.Base.{false, none, refl, true, ◌↔◌, ◌≡◌}
use node_ddd_boilerplate_typ.Entities.User.{User}
use node_ddd_boilerplate_typ.Users.Strategy.{is_allowed_to_manage_user, must_update}
use node_ddd_boilerplate_typ.Users.Strategy.Diff.{
  Differs, is_allowed_to_manage_user_iff, must_update_iff,
}
use node_ddd_boilerplate_typ.Value.{
  Fields, Value, at_ms, end, field, null, obj, str, truthy, undefined,
}

abbrev stored : Value
stored = obj (
    field "fullName" (str "Ann")
      (field "preference" (obj (field "defaultTheme" (str "DARK") end)) end))

abbrev darker : Fields
darker = field "preference" (obj (field "defaultTheme" (str "LIGHT") end)) end

must_update_runs :
    (must_update stored (obj darker) ≡ true)
    × (must_update stored (obj (field "fullName" (str "Ann") (field "fu" undefined end))) ≡ false)
    × (must_update (obj end) (obj darker) ≡ false)
unfolding must_update
must_update_runs = (refl, refl, refl)

must_update_iff_example :
    (must_update stored (obj darker) ≡ true) ↔ ((truthy stored ≡ true) × Differs stored darker)
must_update_iff_example = must_update_iff stored darker

abbrev ann : User
ann = record {
  id = str "u1";
  full_name = str "Ann";
  email = str "a@b.c";
  password = undefined;
  phone = null;
  doc_type = null;
  document = null;
  fu = null;
  preference = none;
  created_at = at_ms 1;
  updated_at = null;
  deleted_at = null;
  deleted_by = null;
}

is_allowed_to_manage_user_iff_example :
    (is_allowed_to_manage_user (record { username = str "a@b.c"; client_id = str "u1" }) ann ≡ true)
    ↔ ((str "a@b.c" ≡ str "a@b.c") × (str "u1" ≡ str "u1"))
is_allowed_to_manage_user_iff_example = is_allowed_to_manage_user_iff ann "a@b.c" "u1"

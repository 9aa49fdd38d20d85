-- ===== src/Users/Example.antt =====
-- A concrete backend for the runs: two tables of rows, of which every query finds the first.
use node_ddd_boilerplate_typ.Base.{List, [], concat, length, map, none, some, ◌==◌, ◌∷◌}
use node_ddd_boilerplate_typ.Cryptography.{other_failure}
use node_ddd_boilerplate_typ.Effects.{ok, throw}
use node_ddd_boilerplate_typ.Entities.User.{User}
use node_ddd_boilerplate_typ.Entities.UserPreference.{UserPreference}
use node_ddd_boilerplate_typ.Exceptions.{plain, with_message}
use node_ddd_boilerplate_typ.Platform.{Platform}
use node_ddd_boilerplate_typ.Store.{ResourceRepo}
use node_ddd_boilerplate_typ.Users.Mapper.{preference_to_domain, user_to_domain}
use node_ddd_boilerplate_typ.Users.Service.{Backend}
use node_ddd_boilerplate_typ.Users.Strategy.{UserAuth}
use node_ddd_boilerplate_typ.Value.{
  Date, Fields, Value, at_ms, end, field, fields_of, null, obj, spread, str,
}

abbrev pub Tables : Type 0
Tables = List Value × List Value

abbrev pub platform : Platform
platform = record {
  stringify = λ v. some "{}";
  parse = λ t. none;
  to_text = λ v. "text";
  from_iso = λ s. at_ms 7;
  to_upper_case = λ s. s;
  to_iso = λ d. "iso";
}

abbrev first_row : List Value → Value
first_row [] = null
first_row (row ∷ rows) = row

abbrev patched : Fields → Value → Value
patched data' row = obj (spread (fields_of row) data')

abbrev users_table : ResourceRepo Tables
users_table = record {
  find_one = λ q s. ok (first_row s.0);
  find = λ q s. ok s.0;
  find_and_count = λ q s. ok (s.0, length s.0);
  count = λ q s. ok (length s.0);
  create_and_save = λ v s. (ok v, (v ∷ s.0, s.1));
  update = λ ids data' s.
      (ok (some (record { affected = some (length s.0) })), (map (patched data') s.0, s.1));
  remove = λ row s. (ok row, ([], s.1));
  query = λ sql s. (throw (record { info = with_message "denied"; origin = plain }), s);
}

abbrev preferences_table : ResourceRepo Tables
preferences_table = record {
  find_one = λ q s. ok (first_row s.1);
  find = λ q s. ok s.1;
  find_and_count = λ q s. ok (s.1, length s.1);
  count = λ q s. ok (length s.1);
  create_and_save = λ v s. (ok v, (s.0, v ∷ s.1));
  update = λ ids data' s.
      (ok (some (record { affected = some (length s.1) })), (s.0, map (patched data') s.1));
  remove = λ row s. (ok row, (s.0, []));
  query = λ sql s. (throw (record { info = with_message "denied"; origin = plain }), s);
}

-- The digest of a text is the text in front of which an "h" stands.
abbrev pub backend : Backend Tables
backend = record {
  node = record {
    gen_salt = λ s. ("salt", s);
    digest = λ t. some (concat "h" t);
    timing_safe_equal = λ h1 h2. some (h1 == h2);
    sign = λ v. ok "token";
    verify = λ t. other_failure;
  };
  users = users_table;
  preferences = preferences_table;
  secret = "key";
}

-- Ann, whose password "pw" is stored under the salt "salt", and her preference.
abbrev pub ann_row : Value
ann_row = obj (
    field "id" (str "u1")
      (field "email" (str "a@b.c") (field "password" (str "salt|hsaltpwkey") end)))

abbrev pub tables : Tables
tables = (ann_row ∷ [], obj (field "id" (str "p1") (field "userId" (str "u1") end)) ∷ [])

abbrev pub no_rows : Tables
no_rows = ([], [])

abbrev pub time : Date
time = at_ms 9

abbrev pub ann : User
ann = user_to_domain ⦃p = platform⦄ time ann_row

abbrev pub ann_preference : UserPreference
ann_preference =
    preference_to_domain ⦃p = platform⦄ time
      (obj (field "id" (str "p1") (field "userId" (str "u1") end)))

abbrev pub ann_auth : UserAuth
ann_auth = record { username = str "a@b.c"; client_id = str "u1" }

abbrev pub bob_auth : UserAuth
bob_auth = record { username = str "b@b.c"; client_id = str "u2" }

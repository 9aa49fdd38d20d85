-- ===== src/Users/Service/Tests.antt =====
-- The theorems on the services at concrete tables.
use node_ddd_boilerplate_typ.Users.Service
use node_ddd_boilerplate_typ.Base.{refl, true, ◌≡◌}
use node_ddd_boilerplate_typ.Effects.{Ensures, ok, throw, ◌>>=◌}
use node_ddd_boilerplate_typ.Entities.User.{set_password}
use node_ddd_boilerplate_typ.Repository.Laws.{IsInternal}
use node_ddd_boilerplate_typ.Users.Example.{
  ann, ann_preference, ann_row, backend, no_rows, platform, tables, time,
}
use node_ddd_boilerplate_typ.Users.PreferenceService.{
  create_own, delete_own, get_by_user_id, update_own,
}
use node_ddd_boilerplate_typ.Users.Repository.{empty_query}
use node_ddd_boilerplate_typ.Users.Service.{
  create, delete, get_by_email, get_by_id, incorrect_password, list, protect_password, update,
  validate_password,
}
use node_ddd_boilerplate_typ.Users.Service.Laws.{
  HasNoPassword, service_errors, service_hides_password, service_reads,
}
use node_ddd_boilerplate_typ.Users.Service.Passwords.{
  NoBar, password_round_trip, stored_password, validate_password_answers,
}
use node_ddd_boilerplate_typ.Value.{str}

salt_without_bar : NoBar "salt"
salt_without_bar = (refl, (refl, (refl, (refl, tt))))

hash_without_bar : NoBar "hsaltpwkey"
hash_without_bar =
    (refl, (refl, (refl, (refl, (refl, (refl, (refl, (refl, (refl, (refl, tt))))))))))

password_round_trip_example :
    (protect_password ⦃p = platform⦄ backend time "pw" >>= (λ text.
        validate_password ⦃p = platform⦄ backend time (set_password time text ann) "pw"))
      tables
    ≡ (ok tt, tables)
password_round_trip_example =
    password_round_trip ⦃p = platform⦄ backend time ann "pw" "salt" "hsaltpwkey" tables tables refl
      refl salt_without_bar refl refl hash_without_bar refl

validate_password_answers_example :
    validate_password ⦃p = platform⦄ backend time
      (set_password time (stored_password "salt" "hsaltpwkey") ann)
      "other"
      tables
    ≡ (throw (incorrect_password ⦃p = platform⦄), tables)
validate_password_answers_example =
    validate_password_answers ⦃p = platform⦄ backend time ann "other" "salt" "hsaltpwkey" tables
      refl salt_without_bar refl hash_without_bar

service_errors_example :
    IsInternal (Service.get_by_id ⦃p = platform⦄ backend time "u1" true no_rows).0
    × IsInternal (get_by_email ⦃p = platform⦄ backend time (str "a@b.c") no_rows).0
    × IsInternal (Service.create ⦃p = platform⦄ backend time ann no_rows).0
    × IsInternal (Service.update ⦃p = platform⦄ backend time "u1" ann_row no_rows).0
    × IsInternal (Service.delete ⦃p = platform⦄ backend time "u1" true (str "u1") no_rows).0
    × IsInternal (Service.list ⦃p = platform⦄ backend time empty_query no_rows).0
    × IsInternal (get_by_user_id ⦃p = platform⦄ backend time (str "a@b.c") no_rows).0
    × IsInternal (create_own ⦃p = platform⦄ backend time ann_preference no_rows).0
    × IsInternal (update_own ⦃p = platform⦄ backend time "u1" ann_row no_rows).0
    × IsInternal (delete_own ⦃p = platform⦄ backend time "u1" true no_rows).0
service_errors_example =
    service_errors ⦃p = platform⦄ backend time no_rows "u1" true ann_row (str "u1") (str "a@b.c")
      ann ann_preference empty_query true

service_reads_example :
    ((Service.get_by_id ⦃p = platform⦄ backend time "u1" true tables).1 ≡ tables)
    × ((get_by_email ⦃p = platform⦄ backend time (str "a@b.c") tables).1 ≡ tables)
    × ((Service.list ⦃p = platform⦄ backend time empty_query tables).1 ≡ tables)
    × ((get_by_user_id ⦃p = platform⦄ backend time (str "a@b.c") tables).1 ≡ tables)
service_reads_example =
    service_reads ⦃p = platform⦄ backend time tables "u1" true (str "a@b.c") empty_query

service_hides_password_example :
    Ensures HasNoPassword (Service.create ⦃p = platform⦄ backend time ann tables).0
    × Ensures HasNoPassword (Service.update ⦃p = platform⦄ backend time "u1" ann_row tables).0
service_hides_password_example =
    service_hides_password ⦃p = platform⦄ backend time tables "u1" ann_row ann

-- ===== src/Users/Query/Tests.antt =====
-- Runs, and the theorems at concrete queries.
use node_ddd_boilerplate_typ.Base.{[], false, none, refl, some, true, ℕ, ◌*◌, ◌<◌, ◌∷◌, ◌≡◌, ◌≤◌}
use node_ddd_boilerplate_typ.Users.Query.{
  BuildParams, ListQuery, build_params, by_created_at, desc, equal, like, not_is_null,
  set_condition, soft_deleted_where,
}
use node_ddd_boilerplate_typ.Users.Query.Laws.{
  build_params-id, build_params-page, build_params-select, selects,
}
use node_ddd_boilerplate_typ.Value.{end, field, str}

abbrev first_page : ListQuery
first_page = record {
  limit = some 5;
  page = some 0;
  order = some desc;
  sort_by = none;
  search_term = some "Ann";
  select_soft_deleted = some true;
}

abbrev listing : BuildParams
listing = record {
  query = first_page;
  attributes = end;
  without_password = true;
  without_sensitive_data = true;
}

abbrev second : BuildParams
second = record listing { query = record first_page { page = some 2 } }

abbrev by_id : BuildParams
by_id = record listing { attributes = field "id" (str "u1") (field "email" (str "a@b.c") end) }

build_params_runs :
    ((build_params listing).take ≡ none)
    × ((build_params second).skip ≡ some 10)
    × ((build_params listing).sort ≡ some (by_created_at, desc))
    × ((build_params listing).wheres
        ≡ (("deletedAt", not_is_null)
            ∷ ("deletedBy", not_is_null)
            ∷ ("fullName", like (str "%Ann%"))
            ∷ [])
          ∷ [])
unfolding build_params
build_params_runs = (refl, refl, refl, refl)

build_params-select_example :
    (selects "password" (build_params listing).select ≡ false)
    × (selects "phone" (build_params listing).select ≡ false)
    × (selects "document" (build_params listing).select ≡ false)
    × (selects "email" (build_params listing).select ≡ true)
    × (selects "deletedBy" (build_params listing).select ≡ true)
build_params-select_example = build_params-select listing

build_params-id_example :
    (build_params by_id).wheres
    ≡ set_condition "id" (equal (str "u1")) (soft_deleted_where (some true)) ∷ []
build_params-id_example = build_params-id by_id "u1" refl refl

build_params-page_example :
    (g : ℕ) × (second.limit ≡ some 5)
    × (second.page ≡ some g)
    × ((build_params second).skip ≡ some (g * 5))
    × (0 < 5)
    × (5 ≤ g * 5)
unfolding build_params
build_params-page_example = build_params-page second 5 refl

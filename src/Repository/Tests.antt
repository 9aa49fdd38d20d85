-- ===== src/Repository/Tests.antt =====
-- A database of one table whose state is the list of its rows, and the theorems on it.
use node_ddd_boilerplate_typ.Base.{
  List, [], false, length, map, none, refl, some, true, ℕ, ◌*◌, ◌-◌, ◌<◌, ◌∷◌, ◌≡◌, ◌≤◌, ◌⊎◌,
}
use node_ddd_boilerplate_typ.Effects.{ok, rethrow, throw}
use node_ddd_boilerplate_typ.Exceptions.{exception, internal, plain, with_message}
use node_ddd_boilerplate_typ.Platform.{Platform}
use node_ddd_boilerplate_typ.Repository.{
  count, create, delete_many, delete_one, execute_query, find_all, find_one, get_by_id, list_with,
  pages, total_pages_of, update,
}
use node_ddd_boilerplate_typ.Repository.Laws.{
  IsInternal, delete_many_counts, delete_one_missing, repository_errors, repository_reads,
  total_pages_of-limit, update_returns, update_writes,
}
use node_ddd_boilerplate_typ.Store.{ResourceRepo, only_where}
use node_ddd_boilerplate_typ.Users.Query.{FindOptions, ListQuery}
use node_ddd_boilerplate_typ.Value.{
  Fields, Value, at_ms, end, field, fields_of, null, obj, put, spread, str,
}

abbrev platform : Platform
platform = record {
  stringify = λ v. some "{}";
  parse = λ t. none;
  to_text = λ v. "text";
  from_iso = λ s. at_ms 7;
  to_upper_case = λ s. s;
  to_iso = λ d. "iso";
}

abbrev first_row : List Value → Value
first_row [] = null
first_row (row ∷ rows) = row

abbrev patched : Fields → Value → Value
patched data' row = obj (spread (fields_of row) data')

-- It finds every row and updates every row.
abbrev table : ResourceRepo (List Value)
table = record {
  find_one = λ q rows. ok (first_row rows);
  find = λ q rows. ok rows;
  find_and_count = λ q rows. ok (rows, length rows);
  count = λ q rows. ok (length rows);
  create_and_save = λ v rows. (ok v, v ∷ rows);
  update = λ ids data' rows.
      (ok (some (record { affected = some (length rows) })), map (patched data') rows);
  remove = λ row rows. (ok row, []);
  query = λ sql rows. (throw (record { info = with_message "denied"; origin = plain }), rows);
}

abbrev ann_row : Value
ann_row = obj (field "id" (str "u1") end)

abbrev same : Value → Value
same v = v

abbrev everything : FindOptions
everything = only_where []

abbrev page_two : ListQuery
page_two = record {
  limit = some 2;
  page = some 1;
  order = none;
  sort_by = none;
  search_term = none;
  select_soft_deleted = none;
}

runs :
    ((execute_query ⦃p = platform⦄ table same same (at_ms 1) "drop" []).0
      ≡ throw (exception ⦃p = platform⦄ internal (with_message "denied") false))
    × ((delete_many ⦃p = platform⦄ table same same (at_ms 1) ("u1" ∷ []) false (ann_row ∷ [])).0
        ≡ ok (some 1))
unfolding execute_query delete_many rethrow exception
runs = (refl, refl)

total_pages_of-limit_example :
    (c : ℕ) × (total_pages_of 7 (some 3) ≡ pages c)
    × (0 < c)
    × (7 ≤ c * 3)
    × ((c ≡ 1) ⊎ ((c - 1) * 3 < 7))
total_pages_of-limit_example = total_pages_of-limit 7 2

repository_errors_example :
    IsInternal (create ⦃p = platform⦄ table same same (at_ms 1) ann_row []).0
    × IsInternal (get_by_id ⦃p = platform⦄ table same same (at_ms 1) "drop" []).0
    × IsInternal (find_one ⦃p = platform⦄ table same same (at_ms 1) everything []).0
    × IsInternal (find_all ⦃p = platform⦄ table same same (at_ms 1) everything []).0
    × IsInternal (update ⦃p = platform⦄ table same same (at_ms 1) "drop" end []).0
    × IsInternal (list_with ⦃p = platform⦄ table same same (at_ms 1) everything page_two []).0
    × IsInternal (count ⦃p = platform⦄ table same same (at_ms 1) everything []).0
    × IsInternal (delete_one ⦃p = platform⦄ table same same (at_ms 1) "drop" true []).0
    × IsInternal (delete_many ⦃p = platform⦄ table same same (at_ms 1) ("u1" ∷ []) true []).0
    × IsInternal (execute_query ⦃p = platform⦄ table same same (at_ms 1) "drop" []).0
repository_errors_example =
    repository_errors ⦃p = platform⦄ table same same (at_ms 1) [] ann_row "drop" ("u1" ∷ []) end
      everything page_two true

repository_reads_example :
    ((get_by_id ⦃p = platform⦄ table same same (at_ms 1) "u1" (ann_row ∷ [])).1 ≡ ann_row ∷ [])
    × ((find_one ⦃p = platform⦄ table same same (at_ms 1) everything (ann_row ∷ [])).1
        ≡ ann_row ∷ [])
    × ((find_all ⦃p = platform⦄ table same same (at_ms 1) everything (ann_row ∷ [])).1
        ≡ ann_row ∷ [])
    × ((list_with ⦃p = platform⦄ table same same (at_ms 1) everything page_two (ann_row ∷ [])).1
        ≡ ann_row ∷ [])
    × ((count ⦃p = platform⦄ table same same (at_ms 1) everything (ann_row ∷ [])).1 ≡ ann_row ∷ [])
repository_reads_example =
    repository_reads ⦃p = platform⦄ table same same (at_ms 1) (ann_row ∷ []) "u1" everything
      page_two

updated_row :
    update ⦃p = platform⦄ table same same (at_ms 1) "u1" (field "fu" (str "SP") end) (ann_row ∷ [])
    ≡ (
      ok (
          some (
            obj
              (field "id" (str "u1") (field "fu" (str "SP") (field "updatedAt" (str "iso") end))))),
      obj (field "id" (str "u1") (field "fu" (str "SP") (field "updatedAt" (str "iso") end))) ∷ [],
    )
updated_row =
    update_returns ⦃p = platform⦄ table same same (at_ms 1) "u1" (field "fu" (str "SP") end)
      (ann_row ∷ []) _ (some (record { affected = some 1 })) _ refl refl

delete_one_missing_example :
    delete_one ⦃p = platform⦄ table same same (at_ms 1) "u9" true [] ≡ (ok true, [])
delete_one_missing_example =
    delete_one_missing ⦃p = platform⦄ table same same (at_ms 1) "u9" [] [] refl

delete_many_counts_example :
    (delete_many ⦃p = platform⦄ table same same (at_ms 1) ("u1" ∷ []) false (ann_row ∷ [])).0
    ≡ ok (some 1)
delete_many_counts_example =
    delete_many_counts ⦃p = platform⦄ table same same (at_ms 1) ("u1" ∷ []) (ann_row ∷ [])
      (ann_row ∷ []) refl (λ row t. (row, [], refl))

update_writes_example :
    (update ⦃p = platform⦄ table same same
      (at_ms 1)
      "u1"
      (field "fu" (str "SP") end)
      (ann_row ∷ [])).1
    ≡ (table.update
        ("u1" ∷ [])
        (put "updatedAt" (str "iso") (field "fu" (str "SP") end))
        (ann_row ∷ [])).1
update_writes_example =
    update_writes ⦃p = platform⦄ table same same (at_ms 1) "u1" (field "fu" (str "SP") end)
      (ann_row ∷ [])

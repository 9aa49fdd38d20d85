-- ===== src/Users/Query.antt =====
-- src/modules/app/user/repositories/user/user.query.ts, with the options that it builds for the database
-- library, and the query of a list, src/shared/internal/interfaces/listPaginationInterface.ts.
pub mod Laws
mod Tests
use node_ddd_boilerplate_typ.Base.{
  Bool, List, Option, String, [], concat, if◌then◌else◌, is_empty_text, none, not, or_default, some,
  suc, true, ℕ, ◌*◌, ◌==◌, ◌∷◌,
}
use node_ddd_boilerplate_typ.Entities.UserPreference.{themes}
use node_ddd_boilerplate_typ.Value.{Fields, Value, find, get, str, truthy}

pub data Order : Type 0 where
  asc desc : Order

pub data SortBy : Type 0 where
  by_created_at by_updated_at by_deleted_at : SortBy

-- `ListQueryInterface`, after the validation of the request: `limit` and `page` are numbers.
pub record ListQuery : Type 0 where
  pub limit : Option ℕ
  pub page : Option ℕ
  pub order : Option Order
  pub sort_by : Option SortBy
  pub search_term : Option String
  pub select_soft_deleted : Option Bool

-- `UserBuildParamsInterface`: the query of a list, some attributes of a user, and what to leave out.
pub record BuildParams : Type 0 where
  pub query : ListQuery
  pub open query use *
  pub attributes : Fields
  pub without_password : Bool
  pub without_sensitive_data : Bool

-- A condition on a column: `value`, `Not(IsNull())`, `In(texts)`, `Like(pattern)` or
-- `And(In(texts), Equal(value))`.
pub data Condition : Type 0 where
  equal : Value → Condition
  not_is_null : Condition
  is_in : List String → Condition
  like : Value → Condition
  in_and_equal : List String → Value → Condition

-- `FindOptionsWhere`; a column of a relation is named behind a dot.
abbrev pub Where : Type 0
Where = List (String × Condition)

-- `FindManyOptions`; `where` is a list of alternatives.
pub record FindOptions : Type 0 where
  pub select : List (String × Bool)
  pub wheres : List Where
  pub take : Option ℕ
  pub skip : Option ℕ
  pub sort : Option (SortBy × Order)
  pub relations : List String

-- `where.column = condition`
abbrev pub set_condition : String → Condition → Where → Where
set_condition k c [] = (k, c) ∷ []
set_condition k c ((j, d) ∷ w) = if j == k then (j, c) ∷ w else (j, d) ∷ set_condition k c w

abbrev pub find_condition : String → Where → Option Condition
find_condition k [] = none
find_condition k ((j, c) ∷ w) = if j == k then some c else find_condition k w

-- `if (value) where.column = value`
abbrev pub if_given : Value → String → Where → Where
if_given v k w = if truthy v then set_condition k (equal v) w else w

-- `buildSelectParams`
pub build_select_params : BuildParams → List (String × Bool)
build_select_params p =
    let select_sensitive_data = not p.without_sensitive_data in
    let select_password = not p.without_password in
    ("id", true)
    ∷ ("fullName", true)
    ∷ ("email", true)
    ∷ ("password", select_password)
    ∷ ("phone", select_sensitive_data)
    ∷ ("fu", true)
    ∷ ("docType", true)
    ∷ ("document", select_sensitive_data)
    ∷ ("createdAt", true)
    ∷ ("updatedAt", true)
    ∷ ("deletedAt", true)
    ∷ ("deletedBy", true)
    ∷ []

-- The conditions under `selectSoftDeleted === true`.
abbrev pub soft_deleted_where : Option Bool → Where
soft_deleted_where (some true) = ("deletedAt", not_is_null) ∷ ("deletedBy", not_is_null) ∷ []
soft_deleted_where _ = []

-- `if (searchTerm) partialWhere.fullName = Like(…)`
abbrev pub if_searched : Option String → Where → Where
if_searched none w = w
if_searched (some term) w =
    if is_empty_text term
    then w
    else set_condition "fullName" (like (str (concat "%" (concat term "%")))) w

-- `if (preference?.defaultTheme) …`
abbrev pub if_themed : Value → Where → Where
if_themed theme w =
    if truthy theme
    then set_condition "preference.defaultTheme" (in_and_equal themes theme) w
    else w

-- The conditions behind the early return on `id`.
abbrev pub filter_where : BuildParams → Where → Where
filter_where p w =
    let given = λ (k : String). find k p.attributes in
    if_themed (get (given "preference") "defaultTheme") (
      if_searched p.search_term (
        if_given (given "fullName") "fullName" (
          if_given (given "phone") "phone" (
            if_given (given "fu") "fu" (
              if_given (given "docType") "docType"
                (if_given (given "document") "document" (if_given (given "email") "email" w)))))))

-- `buildWhereParams`
pub build_where_params : BuildParams → List Where
build_where_params p =
    let partial_where = soft_deleted_where p.select_soft_deleted in
    if truthy (find "id" p.attributes)
    then set_condition "id" (equal (find "id" p.attributes)) partial_where ∷ []
    else filter_where p partial_where ∷ []

-- `if (limit && page)`: both are numbers other than 0.
abbrev pub paged : Option ℕ → Option ℕ → Option (ℕ × ℕ)
paged (some (suc l)) (some (suc g)) = some (suc l, suc g)
paged _ _ = none

-- `if (sortBy || order)`
abbrev pub sorted : Option SortBy → Option Order → Option (SortBy × Order)
sorted none none = none
sorted s o = some (or_default s by_created_at, or_default o asc)

-- `buildPaginationParams`, as the options without selection and conditions.
abbrev pub take_of : Option (ℕ × ℕ) → Option ℕ
take_of none = none
take_of (some (limit, page)) = some limit

abbrev pub skip_of : Option (ℕ × ℕ) → Option ℕ
skip_of none = none
skip_of (some (limit, page)) = some (page * limit)

-- `userQueryParamsBuilder.buildParams`
unfoldable pub build_params : BuildParams → FindOptions
unfolding build_select_params build_where_params
build_params p = record {
  select = build_select_params p;
  wheres = build_where_params p;
  take = take_of (paged p.limit p.page);
  skip = skip_of (paged p.limit p.page);
  sort = sorted p.sort_by p.order;
  relations = "preference" ∷ [];
}

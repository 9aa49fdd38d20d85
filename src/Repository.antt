-- ===== src/Repository.antt =====
-- src/modules/core/infra/database/repositories/AbstractRepository.repository.ts
pub mod Laws
mod Tests
use mathlib.Core.Option
use node_ddd_boilerplate_typ.Base.{
  Bool, List, Option, String, [], eqb, false, if◌then◌else◌, length, ltb, map, none, not, some, suc,
  true, zero, ℕ, ◌+◌, ◌-◌, ◌/◌, ◌∷◌,
}
use node_ddd_boilerplate_typ.Effects.{Call, pure, raise_if, reads, rethrow, ◌>>=◌, ◌>>◌}
use node_ddd_boilerplate_typ.Entities.Abstract.{validate}
use node_ddd_boilerplate_typ.Exceptions.{Error, contract, exception, internal, with_message}
use node_ddd_boilerplate_typ.Platform.{Platform}
use node_ddd_boilerplate_typ.Store.{ResourceRepo, UpdateResult, where_id, where_ids}
use node_ddd_boilerplate_typ.Users.Query.{FindOptions, ListQuery}
use node_ddd_boilerplate_typ.Value.{
  Date, Fields, Value, end, field, find, put, str, truthy, undefined,
}

-- The number of pages: `Math.ceil` of a division by 0 is infinite.
pub data PageCount : Type 0 where
  pages : ℕ → PageCount
  infinite : PageCount

-- `PaginationInterface`
pub record Pagination (E : Type 0) : Type 0 where
  pub content : List E
  pub page_number : ℕ
  pub page_size : ℕ
  pub total_pages : PageCount
  pub total_items : ℕ

abbrev ceil_div : ℕ → ℕ → ℕ
ceil_div n l = (n + (l - 1)) / l

-- `pages || 1`
abbrev or_one : ℕ → PageCount
or_one zero = pages 1
or_one (suc c) = pages (suc c)

-- `Math.ceil(totalItems / limit) || 1`
abbrev pages_of : ℕ → ℕ → PageCount
pages_of zero zero = pages 1
pages_of (suc n) zero = infinite
pages_of n (suc l) = or_one (ceil_div n (suc l))

-- `totalPages`, with `query?.limit ?? 1`
unfoldable pub total_pages_of : ℕ → Option ℕ → PageCount
total_pages_of n none = pages_of n 1
total_pages_of n (some l) = pages_of n l

abbrev or_zero : Option ℕ → ℕ
or_zero none = 0
or_zero (some n) = n

-- The value that `list` returns for the rows of a page and the count of all.
unfoldable pub paginate : {E : Type 0} → (Value → E) → ListQuery → List Value × ℕ → Pagination E
unfolding total_pages_of
paginate to_domain query (rows, count) = record {
  content = map to_domain rows;
  page_number = or_zero query.page;
  page_size = length rows;
  total_pages = total_pages_of count query.limit;
  total_items = count;
}

-- `result.affected ? result.affected > 0 : true`
abbrev was_affected : Option ℕ → Bool
was_affected none = true
was_affected (some n) = if not (eqb n 0) then ltb 0 n else true

-- What `deleteOne` returns for the result of the update.
abbrev pub soft_deleted : Option UpdateResult → Bool
soft_deleted none = false
soft_deleted (some r) = was_affected r.affected

-- `Number(result.affected)`: `none` is NaN.
abbrev affected_number : Option UpdateResult → Option ℕ
affected_number none = none
affected_number (some r) = r.affected

-- A row that was found, or null.
abbrev pub found_row : Value → Option Value
found_row v = if truthy v then some v else none

-- `throw this.exceptions.internal(error)`
abbrev pub internal_error : ⦃p : Platform⦄ → Error → Error
internal_error e = exception internal e.info false

-- The repository of a model, over the database library's, its mapper and its clock.
module _ ⦃p : Platform⦄ {S E : Type 0} (repo : ResourceRepo S) (to_domain : Value → E)
    (to_database : E → Value) (now : Date) where
  -- `validatePayload`; the entity is an instance of its class.
  pub validate_payload : E → Call S (Unit {0})
  validate_payload entity =
      raise_if (not validate)
        (exception contract (record (with_message "ValidationError") { details = undefined }) false)

  unfoldable pub create : E → Call S E
  unfolding validate_payload
  create entity =
      rethrow
        (do
          validate_payload entity
          result ← repo.create_and_save (to_database entity)
          pure (to_domain result))
        internal_error

  -- The rest of a read of one row.
  abbrev pub one_row : FindOptions → Call S (Option E)
  one_row query =
      rethrow
        (do result ← reads (repo.find_one query); pure (Option.map to_domain (found_row result)))
        internal_error

  unfoldable pub get_by_id : String → Call S (Option E)
  get_by_id id = one_row (where_id id)

  unfoldable pub find_one : FindOptions → Call S (Option E)
  find_one query = one_row query

  unfoldable pub find_all : FindOptions → Call S (List E)
  find_all query =
      rethrow (do result ← reads (repo.find query); pure (map to_domain result)) internal_error

  unfoldable pub update : String → Fields → Call S (Option E)
  update id data_values =
      rethrow
        (do
          repo.update (id ∷ []) (put "updatedAt" (str (p.to_iso now)) data_values)
          result ← reads (repo.find_one (where_id id))
          pure (Option.map to_domain (found_row result)))
        internal_error

  unfoldable pub list_with : FindOptions → ListQuery → Call S (Pagination E)
  unfolding paginate
  list_with built_query query =
      rethrow
        (do
          result ← reads (repo.find_and_count built_query)
          pure (paginate to_domain query result))
        internal_error

  unfoldable pub count : FindOptions → Call S ℕ
  count query = rethrow (reads (repo.count query)) internal_error

  -- The branches of `deleteOne`; `stamp` holds what a soft deletion writes.
  abbrev pub delete_soft : String → Fields → Call S Bool
  delete_soft id stamp = do result ← repo.update (id ∷ []) stamp; pure (soft_deleted result)

  abbrev remove_row : Option Value → Call S Bool
  remove_row none = pure false
  remove_row (some row) = do repo.remove row; pure true

  abbrev pub delete_hard : String → Call S Bool
  delete_hard id = do
    register ← reads (repo.find_one (where_id id))
    remove_row (found_row register)

  unfoldable pub delete_one_with : Fields → String → Bool → Call S Bool
  delete_one_with stamp id soft_delete =
      rethrow (if soft_delete then delete_soft id stamp else delete_hard id) internal_error

  -- The loop of `deleteMany`.
  pub remove_all : List Value → ℕ → Call S ℕ
  remove_all [] counter = pure counter
  remove_all (row ∷ rows) counter = do repo.remove row; remove_all rows (suc counter)

  abbrev delete_many_soft : List String → Fields → Call S (Option ℕ)
  delete_many_soft ids stamp = do result ← repo.update ids stamp; pure (affected_number result)

  abbrev delete_many_hard : List String → Call S (Option ℕ)
  delete_many_hard ids = do
    registers ← reads (repo.find (where_ids ids))
    counter ← remove_all registers 0
    pure (some counter)

  unfoldable pub delete_many_with : Fields → List String → Bool → Call S (Option ℕ)
  unfolding remove_all
  delete_many_with stamp ids soft_delete =
      rethrow (if soft_delete then delete_many_soft ids stamp else delete_many_hard ids)
        internal_error

  -- `deleteOne` and `deleteMany` of the abstract repository.
  unfoldable pub delete_one : String → Bool → Call S Bool
  unfolding delete_one_with
  delete_one id soft_delete =
      delete_one_with (field "deletedAt" (str (p.to_iso now)) end) id soft_delete

  unfoldable pub delete_many : List String → Bool → Call S (Option ℕ)
  unfolding delete_many_with
  delete_many ids soft_delete =
      delete_many_with (field "deletedAt" (str (p.to_iso now)) end) ids soft_delete

  unfoldable pub execute_query : String → Call S Value
  execute_query sql = rethrow (repo.query sql) internal_error

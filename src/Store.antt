-- ===== src/Store.antt =====
-- What the repositories use of the database library: its `Repository` of a model, over the state
-- of the database. A read leaves the state alone; a row is a value, and null stands for none.
use node_ddd_boilerplate_typ.Base.{List, Option, String, [], none, ℕ, ◌∷◌}
use node_ddd_boilerplate_typ.Effects.{Call, Result}
use node_ddd_boilerplate_typ.Users.Query.{FindOptions, Where, equal, is_in}
use node_ddd_boilerplate_typ.Value.{Fields, Value, str}

-- `UpdateResult`
pub record UpdateResult : Type 0 where
  pub affected : Option ℕ

pub record ResourceRepo (S : Type 0) : Type 0 where
  pub find_one : FindOptions → S → Result Value
  pub find : FindOptions → S → Result (List Value)
  pub find_and_count : FindOptions → S → Result (List Value × ℕ)
  pub count : FindOptions → S → Result ℕ
  -- `create(values).save()`
  pub create_and_save : Value → Call S Value
  pub update : List String → Fields → Call S (Option UpdateResult)
  pub remove : Value → Call S Value
  pub query : String → Call S Value

-- `{ where }`
abbrev pub only_where : Where → FindOptions
only_where w = record {
  select = [];
  wheres = w ∷ [];
  take = none;
  skip = none;
  sort = none;
  relations = [];
}

-- `{ where: { id } }` and `{ where: { id: In(ids) } }`
abbrev pub where_id : String → FindOptions
where_id id = only_where (("id", equal (str id)) ∷ [])

abbrev pub where_ids : List String → FindOptions
where_ids ids = only_where (("id", is_in ids) ∷ [])

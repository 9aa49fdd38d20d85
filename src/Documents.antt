-- ===== src/Documents.antt =====
-- src/modules/core/infra/data/Mongo.client.ts over its client library.
use node_ddd_boilerplate_typ.Base.{Bool, List, String, false, map, none, not, true}
use node_ddd_boilerplate_typ.Effects.{Call, Result, ok, pure, raise_if, reads, throw, ◌>>=◌, ◌>>◌}
use node_ddd_boilerplate_typ.Exceptions.{conflict, exception, integration, with_message}
use node_ddd_boilerplate_typ.Platform.{Platform}
use node_ddd_boilerplate_typ.Value.{Fields, Value, end, field, get, str, undefined}

-- What the library does with a collection; a read of one document finds null where there is none.
pub record DocumentDriver (S : Type 0) : Type 0 where
  pub find_one_in : String → Fields → S → Result Value
  pub find_all_in : String → Fields → S → Result (List Value)
  pub insert_one_in : String → Value → Call S Value
  pub insert_many_in : String → List Value → Call S Value
  pub update_one_in : String → Fields → Fields → Call S Value
  pub update_many_in : String → Fields → Fields → Call S Value
  pub delete_one_in : String → Fields → Call S Value
  pub delete_many_in : String → Fields → Call S Value
  pub run : Value → Call S Value
  pub collections : S → Result (List Value)
  pub create : String → Call S Value
  pub drop : String → Call S Bool
  pub open_connection : Call S (Unit {0})
  pub close_connection : Call S (Unit {0})

module _ ⦃p : Platform⦄ {S : Type 0} (driver : DocumentDriver S) where
  -- `if (!database) throw conflict`
  abbrev pub with_database : {A : Type 0} → Bool → Call S A → Call S A
  with_database has_database m = do
    raise_if (not has_database) (exception conflict (with_message "Database unexistent") false)
    m

  -- `runCommand`; the first argument of this and the next four is whether there is a database.
  abbrev pub run_command : Bool → Value → Call S Value
  run_command has_database command = with_database has_database (driver.run command)

  -- `listCollections`
  abbrev pub list_collections : Bool → Call S (List Value)
  list_collections has_database =
      with_database has_database
        (do found ← reads driver.collections; pure (map (λ c. get c "name") found))

  -- `getCollection`: a collection stands for itself by its name.
  abbrev pub get_collection : Bool → String → Call S String
  get_collection has_database name = with_database has_database (pure name)

  -- `createCollection`
  abbrev pub create_collection : Bool → String → Call S Value
  create_collection has_database name = with_database has_database (driver.create name)

  -- `dropCollection`
  abbrev pub drop_collection : Bool → String → Call S Bool
  drop_collection has_database name = with_database has_database (driver.drop name)

  -- `insertOne`
  abbrev pub insert_document : String → Value → Call S Value
  insert_document collection data' = driver.insert_one_in collection data'

  -- `insertMany`
  abbrev pub insert_many_documents : String → List Value → Call S Value
  insert_many_documents collection data_list = driver.insert_many_in collection data_list

  -- `get`
  abbrev pub get_document : String → Value → Call S Value
  get_document collection id = reads (driver.find_one_in collection (field "_id" id end))

  -- `findOne`
  abbrev pub find_one_document : String → Fields → Call S Value
  find_one_document collection filter_data = reads (driver.find_one_in collection filter_data)

  -- `findMany`
  abbrev pub find_many_documents : String → Fields → Call S (List Value)
  find_many_documents collection filter_data = reads (driver.find_all_in collection filter_data)

  -- `updateOne`
  abbrev pub update_one_document : String → Value → Value → Call S Value
  update_one_document collection id new_data =
      driver.update_one_in collection (field "_id" id end) (field "$set" new_data end)

  -- `updateMany`
  abbrev pub update_many_documents : String → Fields → Value → Call S Value
  update_many_documents collection filter_data new_data =
      driver.update_many_in collection filter_data (field "$set" new_data end)

  -- `deleteOne`
  abbrev pub delete_one_document : String → Value → Call S Value
  delete_one_document collection id = driver.delete_one_in collection (field "_id" id end)

  -- `deleteMany`
  abbrev pub delete_many_documents : String → Fields → Call S Value
  delete_many_documents collection filter_data = driver.delete_many_in collection filter_data

  -- `connect` behind the answer of the library; the flag is the field `isConnected`.
  abbrev pub connected : Result (Unit {0}) → S → Result Bool × (Bool × S)
  connected (ok u) t = (ok true, (true, t))
  connected (throw e) t = (
    throw (
        exception integration
          (record {
            name = none;
            message = "Error to connect mongo client";
            code = undefined;
            details = str e.message;
            cause = undefined;
            stack = undefined;
          })
          false),
    (false, t),
  )

  -- `connect`
  unfoldable pub connect : Call (Bool × S) Bool
  connect (flag, s) = let (r, t) = driver.open_connection s in connected r t

  -- `disconnect` behind the answer of the library.
  abbrev pub disconnected : Bool → Result (Unit {0}) → S → Result Bool × (Bool × S)
  disconnected flag (ok u) t = (ok true, (false, t))
  disconnected flag (throw e) t = (ok false, (flag, t))

  -- `disconnect`
  unfoldable pub disconnect : Call (Bool × S) Bool
  disconnect (flag, s) = let (r, t) = driver.close_connection s in disconnected flag r t

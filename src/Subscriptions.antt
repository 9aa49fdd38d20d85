-- ===== src/Subscriptions.antt =====
-- src/modules/app/subscription/services/Subscription.service.ts over a cache and a document store, the
-- methods that send messages among Sockets.
pub mod Laws
pub mod Refinement
mod Tests
use node_ddd_boilerplate_typ.Entities.Subscription
use node_ddd_boilerplate_typ.Base.{
  Bool, List, String, [], false, if◌then◌else◌, ltb, map, not, ℕ, ◌∷◌,
}
use node_ddd_boilerplate_typ.Cache.{
  CacheDriver, delete_cached, generate_key, get_by_key_pattern, get_cached, set_cached,
}
use node_ddd_boilerplate_typ.Documents.{
  DocumentDriver, delete_one_document, find_many_documents, find_one_document, insert_document,
  update_one_document,
}
use node_ddd_boilerplate_typ.Effects.{Call, Result, ok, pure, raise_if, reads, ◌>>=◌, ◌>>◌}
use node_ddd_boilerplate_typ.Entities.Subscription.{Subscription, new_subscription}
use node_ddd_boilerplate_typ.Exceptions.{Error, conflict, exception, not_found, with_message}
use node_ddd_boilerplate_typ.Platform.{Platform}
use node_ddd_boilerplate_typ.Repository.{count}
use node_ddd_boilerplate_typ.Value.{Date, Fields, Value, end, field, get, num, obj, str, truthy}

-- What the service asks of the document store, on the collection of the subscriptions: a read of one
-- document finds null where there is none, an insertion returns the new identifier, a deletion the
-- number of deleted documents.
pub record Documents (S : Type 0) : Type 0 where
  pub find_document : Fields → S → Result Value
  pub find_documents : S → Result (List Value)
  pub insert_one : Value → Call S Value
  pub update_one : Value → Value → Call S (Unit {0})
  pub delete_document : Value → Call S ℕ

abbrev number_of : Value → ℕ
number_of (num n) = n
number_of v = 0

-- The document store's client on the collection of the subscriptions.
abbrev pub documents_of : ⦃p : Platform⦄ {S : Type 0} → DocumentDriver S → String → Documents S
documents_of driver collection = record {
  find_document = λ q s. (find_one_document driver collection q s).0;
  find_documents = λ s. (find_many_documents driver collection end s).0;
  insert_one =
      λ v. (do result ← insert_document driver collection v; pure (get result "insertedId"));
  update_one = λ id v. (do update_one_document driver collection id v; pure tt);
  delete_document = λ id. (do
    result ← delete_one_document driver collection id
    pure (number_of (get result "deletedCount")));
}

pub record Stores (S : Type 0) : Type 0 where
  pub cache : CacheDriver S
  pub documents : Documents S
  -- `subscriptionsTimeToLive`
  pub time_to_live : ℕ

-- `generateKey(id, CacheEnum.SUBSCRIPTIONS)`
abbrev pub subscription_key : String → String
subscription_key id = generate_key id "subscriptions"

abbrev pub not_found_subscription : ⦃p : Platform⦄ → Error
not_found_subscription = exception not_found (with_message "Subscription not found!") false

abbrev pub not_saved : ⦃p : Platform⦄ → Error
not_saved = exception conflict (with_message "Subscription not created or updated!") false

module _ ⦃p : Platform⦄ {S : Type 0} (stores : Stores S) (now : Date) where
  -- `getFromCache`
  abbrev pub get_from_cache : String → Call S Value
  get_from_cache id = get_cached stores.cache (subscription_key id)

  -- `saveOnCache` of the attributes of a subscription.
  abbrev pub save_on_cache : String → Subscription → Call S String
  save_on_cache id s =
      set_cached stores.cache (subscription_key id) (obj (Subscription.get_attributes s))
        stores.time_to_live

  -- `deleteFromCache`
  abbrev pub delete_from_cache : String → Call S ℕ
  delete_from_cache id = delete_cached stores.cache (subscription_key id)

  -- `listFromCache`
  abbrev pub list_from_cache : Call S (List Value)
  list_from_cache = get_by_key_pattern stores.cache "subscriptions:*"

  -- The document of a subscription.
  abbrev pub find_subscription : String → Call S Value
  find_subscription id =
      reads (stores.documents.find_document (field "subscriptionId" (str id) end))

  -- `get` behind the reads.
  abbrev pub found_subscription : String → Value → Call S Subscription
  found_subscription id found = do
    raise_if (not (truthy found)) not_found_subscription
    save_on_cache id (new_subscription now found)
    pure (new_subscription now found)

  -- `get` behind the read of the cache.
  abbrev pub get_behind_cache : String → Value → Call S Subscription
  get_behind_cache id cached s =
      if truthy cached
      then found_subscription id cached s
      else (do found ← find_subscription id; found_subscription id found) s

  -- `SubscriptionService.get`
  unfoldable pub get_subscription : String → Call S Subscription
  get_subscription id = do cached ← get_from_cache id; get_behind_cache id cached

  -- The insertion or the update of `save`, which returns the identifier of the document.
  abbrev pub write_subscription : Value → Value → Call S Value
  write_subscription database_id attributes s =
      if truthy database_id
      then (do stores.documents.update_one database_id attributes; pure database_id) s
      else stores.documents.insert_one attributes s

  -- `save` behind the read of the document.
  abbrev pub saved_row : String → Value → Call S Subscription
  saved_row id row = do save_on_cache id (new_subscription now row); pure (new_subscription now row)

  abbrev pub read_back : String → Value → Call S Subscription
  read_back id database_id = do
    row ← reads (stores.documents.find_document (field "_id" database_id end))
    saved_row id row

  -- `save` behind the writing.
  abbrev pub written_subscription : String → Value → Call S Subscription
  written_subscription id database_id = do
    raise_if (not (truthy database_id)) not_saved
    read_back id database_id

  -- `save` behind the search.
  abbrev pub save_found : String → Value → Value → Call S Subscription
  save_found id data' found = do
    database_id ←
        write_subscription (get found "_id")
          (obj (Subscription.get_attributes (new_subscription now data')))
    written_subscription id database_id

  -- `SubscriptionService.save`
  unfoldable pub save_subscription : String → Value → Call S Subscription
  save_subscription id data' = do found ← find_subscription id; save_found id data' found

  -- The deletion of the document, if there is one.
  abbrev pub delete_found_document : Value → Call S Bool
  delete_found_document database_id s =
      if truthy database_id
      then (do count ← stores.documents.delete_document database_id; pure (ltb 0 count)) s
      else (ok false, s)

  -- `delete` behind the search.
  abbrev pub delete_subscription_found : String → Value → Call S Bool
  delete_subscription_found id found = do
    deleted ← delete_found_document (get found "_id")
    delete_from_cache id
    pure deleted

  -- `SubscriptionService.delete`
  unfoldable pub delete_subscription : String → Call S Bool
  delete_subscription id = do found ← find_subscription id; delete_subscription_found id found

  -- `list` behind the read of the cache.
  abbrev pub list_behind_cache : Bool → List Value → Call S (List Value)
  list_behind_cache use_cache [] s = reads stores.documents.find_documents s
  list_behind_cache use_cache (v ∷ vs) s =
      if use_cache then (ok (v ∷ vs), s) else reads stores.documents.find_documents s

  -- `SubscriptionService.list`
  unfoldable pub list_subscriptions : Bool → Call S (List Subscription)
  list_subscriptions use_cache = do
    cached ← list_from_cache
    rows ← list_behind_cache use_cache cached
    pure (map (new_subscription now) rows)

-- ===== src/Subscriptions/Laws.antt =====
-- What the subscription service answers and what it writes.
use node_ddd_boilerplate_typ.Entities.Subscription
use node_ddd_boilerplate_typ.Base.{
  Bool, List, String, [], ap, false, map, none, not, refl, some, true, ℕ, ◌∙◌, ◌∷◌, ◌≡◌,
}
use node_ddd_boilerplate_typ.Cache.{cached_value, entry_at, set_given}
use node_ddd_boilerplate_typ.DataParser.{to_string}
use node_ddd_boilerplate_typ.Effects.{
  Call, Result, bind-ok, bind-reads, ok, or_raise, pure, raise_if, reads, throw, ◌>>=◌, ◌>>◌,
}
use node_ddd_boilerplate_typ.Entities.Subscription.{Subscription, new_subscription}
use node_ddd_boilerplate_typ.Platform.{Platform}
use node_ddd_boilerplate_typ.Subscriptions.{
  Stores, delete_found_document, delete_subscription, delete_subscription_found, found_subscription,
  get_behind_cache, get_from_cache, get_subscription, list_behind_cache, list_from_cache,
  list_subscriptions, not_found_subscription, not_saved, read_back, save_found, save_on_cache,
  save_subscription, saved_row, subscription_key, write_subscription, written_subscription,
}
use node_ddd_boilerplate_typ.Value.{Date, Value, end, field, get, null, obj, str, truthy}

pub bind-read :
    {S A B : Type 0} (read : S → Result A) (f : A → Call S B) (s : S) (a : A)
    → read s ≡ ok a
    → (reads read >>= f) s ≡ f a s
bind-read read f s a h = bind-ok (reads read) f s s a (ap (λ r. (r, s)) h)

module _ ⦃p : Platform⦄ {S : Type 0} (stores : Stores S) (now : Date) where
  -- If the cache has no entry for the identifier and the search for its document finds nothing,
  -- the subscription is not found: 404, and nothing is written.
  pub get_subscription-missing :
      (id : String) (found : Value) (s : S)
      → stores.cache.get_text (subscription_key id) s ≡ ok none
      → stores.documents.find_document (field "subscriptionId" (str id) end) s ≡ ok found
      → truthy found ≡ false
      → get_subscription stores now id s ≡ (throw not_found_subscription, s)
  unfolding get_subscription
  get_subscription-missing id found s uncached read missing =
      bind-ok (get_from_cache stores now id) (get_behind_cache stores now id) s s null (
        bind-read (stores.cache.get_text (subscription_key id)) (λ text. pure (cached_value text)) s
          none uncached)
      ∙ bind-read (stores.documents.find_document (field "subscriptionId" (str id) end))
          (found_subscription stores now id) s found read
      ∙ rw missing refl

  save_on_cache-ok :
      (id text result : String) (e : Subscription) (t u v : S)
      → to_string (obj (Subscription.get_attributes e)) ≡ some text
      → stores.cache.set_text (subscription_key id) text t ≡ (ok result, u)
      → stores.cache.expire (subscription_key id) stores.time_to_live u ≡ (ok tt, v)
      → save_on_cache stores now id e t ≡ (ok result, v)
  save_on_cache-ok id text result e t u v written set expired =
      ap
        (λ o.
          (or_raise o stores.cache.stringify_error
              >>= set_given stores.cache (subscription_key id) stores.time_to_live)
            t)
        written
      ∙ bind-ok (stores.cache.set_text (subscription_key id) text)
          (λ r. stores.cache.expire (subscription_key id) stores.time_to_live >> pure r) t u result
          set
      ∙ bind-ok (stores.cache.expire (subscription_key id) stores.time_to_live) (λ x. pure result) u
          v tt expired

  -- If the identifier has no document, and the insertion, the read of the inserted document, its
  -- text for the cache and both commands to the cache succeed, saving is these steps, in this order,
  -- and returns the subscription of the document that is read.
  pub save_subscription-inserts :
      (id text result : String) (data' found database_id row : Value) (s t u v : S)
      → stores.documents.find_document (field "subscriptionId" (str id) end) s ≡ ok found
      → truthy (get found "_id") ≡ false
      → stores.documents.insert_one
          (obj (Subscription.get_attributes (new_subscription now data')))
          s
        ≡ (ok database_id, t)
      → truthy database_id ≡ true
      → stores.documents.find_document (field "_id" database_id end) t ≡ ok row
      → to_string (obj (Subscription.get_attributes (new_subscription now row))) ≡ some text
      → stores.cache.set_text (subscription_key id) text t ≡ (ok result, u)
      → stores.cache.expire (subscription_key id) stores.time_to_live u ≡ (ok tt, v)
      → save_subscription stores now id data' s ≡ (ok (new_subscription now row), v)
  unfolding save_subscription
  save_subscription-inserts id text result data' found database_id row s t u v searched new inserted
        given read written set expired =
      bind-read (stores.documents.find_document (field "subscriptionId" (str id) end))
        (save_found stores now id data') s found searched
      ∙ bind-ok
          (write_subscription stores now (get found "_id")
            (obj (Subscription.get_attributes (new_subscription now data'))))
          (written_subscription stores now id) s t database_id (rw new inserted)
      ∙ bind-ok (raise_if (not (truthy database_id)) not_saved)
          (λ x. read_back stores now id database_id) t t tt (rw given refl)
      ∙ bind-read (stores.documents.find_document (field "_id" database_id end))
          (saved_row stores now id) t row read
      ∙ bind-ok (save_on_cache stores now id (new_subscription now row))
          (λ x. pure (new_subscription now row)) t v result
          (save_on_cache-ok id text result (new_subscription now row) t u v written set expired)

  -- If the identifier has no document, deletion answers false, and still deletes the entry of the
  -- cache, if that succeeds.
  pub delete_subscription-missing :
      (id : String) (found : Value) (n : ℕ) (s t : S)
      → stores.documents.find_document (field "subscriptionId" (str id) end) s ≡ ok found
      → truthy (get found "_id") ≡ false
      → stores.cache.del (subscription_key id) s ≡ (ok n, t)
      → delete_subscription stores now id s ≡ (ok false, t)
  unfolding delete_subscription
  delete_subscription-missing id found n s t searched missing deleted =
      bind-read (stores.documents.find_document (field "subscriptionId" (str id) end))
        (delete_subscription_found stores now id) s found searched
      ∙ bind-ok (delete_found_document stores now (get found "_id"))
          (λ done. stores.cache.del (subscription_key id) >> pure done) s s false (rw missing refl)
      ∙ bind-ok (stores.cache.del (subscription_key id)) (λ count. pure false) s t n deleted

  list_behind_cache-state :
      (use_cache : Bool) (cached : List Value) (s : S)
      → (list_behind_cache stores now use_cache cached s).1 ≡ s
  list_behind_cache-state use_cache [] s = refl
  list_behind_cache-state true (v ∷ vs) s = refl
  list_behind_cache-state false (v ∷ vs) s = refl

  -- Listing leaves the cache and the documents as they are, whether it returns or throws.
  pub list_subscriptions_reads :
      (use_cache : Bool) (s : S) → (list_subscriptions stores now use_cache s).1 ≡ s
  unfolding list_subscriptions
  list_subscriptions_reads use_cache s =
      bind-reads (list_from_cache stores now)
        (λ cached.
          list_behind_cache stores now use_cache cached
          >>= (λ rows. pure (map (new_subscription now) rows)))
        s
        (bind-reads (reads (stores.cache.keys_like "subscriptions:*"))
          (λ found. reads (λ t. ok (map (entry_at stores.cache t) found))) s refl (λ found h. refl))
        (λ cached h.
          bind-reads (list_behind_cache stores now use_cache cached)
            (λ rows. pure (map (new_subscription now) rows)) s
            (list_behind_cache-state use_cache cached s) (λ rows r. refl))

-- ===== src/Subscriptions/Tests.antt =====
-- The theorems on the subscriptions with a store that is a list of documents and a cache that is a
-- list of entries.
use node_ddd_boilerplate_typ.Entities.Subscription
use node_ddd_boilerplate_typ.Base.{
  List, Option, String, [], false, if◌then◌else◌, none, refl, some, true, ℕ, ◌==◌, ◌∷◌, ◌≡◌,
}
use node_ddd_boilerplate_typ.DataParser.{to_string}
use node_ddd_boilerplate_typ.Effects.{ok, throw}
use node_ddd_boilerplate_typ.Entities.Subscription.{Subscription, new_subscription}
use node_ddd_boilerplate_typ.Exceptions.{plain, with_message}
use node_ddd_boilerplate_typ.Platform.{Platform}
use node_ddd_boilerplate_typ.Subscriptions.{
  Stores, delete_subscription, get_subscription, list_subscriptions, not_found_subscription,
  save_subscription,
}
use node_ddd_boilerplate_typ.Subscriptions.Laws.{
  delete_subscription-missing, get_subscription-missing, list_subscriptions_reads,
  save_subscription-inserts,
}
use node_ddd_boilerplate_typ.Users.Example.{platform, time}
use node_ddd_boilerplate_typ.Value.{Value, at_ms, bool, end, field, fields_of, null, obj, put, str}

abbrev Entries : Type 0
Entries = List Value × List (String × String)

abbrev first_document : List Value → Value
first_document [] = null
first_document (v ∷ vs) = v

abbrev stores : Stores Entries
stores = record {
  cache = record {
    get_text = λ k s. ok none;
    set_text = λ k t s. (ok "OK", (s.0, (k, t) ∷ s.1));
    expire = λ k n s. (ok tt, s);
    keys_like = λ k s. ok ("subscriptions:a" ∷ []);
    del = λ k s. (ok 1, (s.0, []));
    get_texts = λ ks s. ok [];
    start_deletions = λ ks s. (s.0, []);
    flush_all = λ s. (ok "OK", (s.0, []));
    open_connection = λ s. (ok tt, s);
    quit = λ s. (ok "OK", s);
    status = λ s. "ready";
    stringify_error = record { info = with_message "circular"; origin = plain };
  };
  documents = record {
    find_document = λ q s. ok (first_document s.0);
    find_documents = λ s. ok s.0;
    insert_one = λ v s. (ok (str "d1"), (obj (put "_id" (str "d1") (fields_of v)) ∷ s.0, s.1));
    update_one = λ i v s. (ok tt, s);
    delete_document = λ i s. (ok 1, ([], s.1));
  };
  time_to_live = 30;
}

abbrev empty : Entries
empty = ([], ("subscriptions:a", "{}") ∷ [])

abbrev client : Value
client = obj (field "subscriptionId" (str "a") (field "clientId" (str "u1") end))

abbrev client_row : Value
client_row = obj (
    put "_id" (str "d1")
      (Subscription.get_attributes (new_subscription ⦃p = platform⦄ time client)))

get_subscription-missing_example :
    get_subscription ⦃p = platform⦄ stores time "a" empty
    ≡ (throw (not_found_subscription ⦃p = platform⦄), empty)
get_subscription-missing_example =
    get_subscription-missing ⦃p = platform⦄ stores time "a" null empty refl refl refl

save_subscription-inserts_example :
    save_subscription ⦃p = platform⦄ stores time "a" client empty ≡ (
      ok (new_subscription ⦃p = platform⦄ time client_row),
      (client_row ∷ [], ("subscriptions:a", "{}") ∷ ("subscriptions:a", "{}") ∷ []),
    )
unfolding to_string
save_subscription-inserts_example =
    save_subscription-inserts ⦃p = platform⦄ stores time "a" "{}" "OK" client null (str "d1")
      client_row empty (client_row ∷ [], empty.1)
      (client_row ∷ [], ("subscriptions:a", "{}") ∷ empty.1)
      (client_row ∷ [], ("subscriptions:a", "{}") ∷ empty.1) refl refl refl refl refl refl refl refl

delete_subscription-missing_example :
    delete_subscription ⦃p = platform⦄ stores time "a" empty ≡ (ok false, ([], []))
delete_subscription-missing_example =
    delete_subscription-missing ⦃p = platform⦄ stores time "a" null 1 empty ([], []) refl refl refl

list_subscriptions_reads_example :
    (list_subscriptions ⦃p = platform⦄ stores time true empty).1 ≡ empty
list_subscriptions_reads_example = list_subscriptions_reads ⦃p = platform⦄ stores time true empty

abbrev document : Value
document =
    obj
      (field "_id" (str "d1") (field "subscriptionId" (str "a") (field "clientId" (str "u1") end)))

-- What the text of the document's attributes is read as.
abbrev read_again : Value
read_again = obj (
    field "id" (str "d1") (
      field "subscriptionId" (str "a") (
        field "dataValues" (obj (field "clientId" (str "u1") (field "createdAt" (str "iso") end)))
          (field "listen" (obj (field "newConnections" (bool false) end)) end))))

abbrev reading : Platform
reading = record {
  stringify = λ v. some "{}";
  parse = λ t. some read_again;
  to_text = λ v. "text";
  from_iso = λ s. at_ms 7;
  to_upper_case = λ s. s;
  to_iso = λ d. "iso";
}

abbrev iso : ℕ → String
iso n = "iso"

abbrev lookup : List (String × String) → String → Option String
lookup [] key = none
lookup ((k, text) ∷ entries) key = if k == key then some text else lookup entries key

-- A cache that is a list of entries, and keeps them.
abbrev full : Stores Entries
full = record {
  cache = record {
    get_text = λ k s. ok (lookup s.1 k);
    set_text = λ k t s. (ok "OK", (s.0, (k, t) ∷ s.1));
    expire = λ k n s. (ok tt, s);
    keys_like = λ k s. ok [];
    del = λ k s. (ok 1, (s.0, []));
    get_texts = λ ks s. ok [];
    start_deletions = λ ks s. (s.0, []);
    flush_all = λ s. (ok "OK", (s.0, []));
    open_connection = λ s. (ok tt, s);
    quit = λ s. (ok "OK", s);
    status = λ s. "ready";
    stringify_error = record { info = with_message "circular"; origin = plain };
  };
  documents = record {
    find_document = λ q s. ok (first_document s.0);
    find_documents = λ s. ok s.0;
    insert_one = λ v s. (ok (str "d1"), (document ∷ s.0, s.1));
    update_one = λ i v s. (ok tt, s);
    delete_document = λ i s. (ok 1, ([], s.1));
  };
  time_to_live = 30;
}

-- ===== src/Entities/Subscription/Laws.antt =====
-- The invariant of a subscription, and reading it back from its attributes and from the cache.
use node_ddd_boilerplate_typ.Base.{String, arith, false, refl, true, ◌≡◌}
use node_ddd_boilerplate_typ.Entities.Abstract.{
  assign, assign-is_null, assign-is_undefined, assign-or_undefined, assign_undefined, exists,
  get_date, is_null,
}
use node_ddd_boilerplate_typ.Entities.Subscription.{
  Subscription, from_values, get_attributes, ignore_new_connections, listen_new_connections,
  merged_values, new_subscription, set_client_id, set_database_id, set_subscription_id,
}
use node_ddd_boilerplate_typ.Platform.{Platform}
use node_ddd_boilerplate_typ.Value.{
  Date, Fields, Value, bool, end, field, find, is_undefined, null, obj, str, undefined, values,
}

-- The identifier is never null, the listener flag and the subscription identifier are always
-- there, and the other fields are never undefined.
pub record IsWellFormed (s : Subscription) : Type 0 where
  pub database_id_not_null : is_null s.database_id ≡ false
  pub subscription_id_exists : exists s.subscription_id ≡ true
  pub client_id_defined : is_undefined s.client_id ≡ false
  pub updated_at_defined : is_undefined s.updated_at ≡ false
  pub new_connections_listen_exists : exists s.new_connections_listen ≡ true

assign-exists : (v w : Value) → exists w ≡ true → exists (assign v w) ≡ true
assign-exists undefined w h = h
assign-exists null w h = h
assign-exists _ w h = refl

assign_existing : (v w : Value) → exists v ≡ true → assign v w ≡ v
assign_existing v w h = rw h refl

module _ ⦃p : Platform⦄ (now : Date) where
  from_values-IsWellFormed : (values : Fields) → IsWellFormed (from_values now values)
  from_values-IsWellFormed values = record {
    database_id_not_null =
        assign-is_null (find "id" values) _ (assign-is_null (find "_id" values) undefined refl);
    subscription_id_exists = assign-exists (find "subscriptionId" values) (str "") refl;
    client_id_defined = assign-is_undefined (find "clientId" values) null refl;
    updated_at_defined = assign-is_undefined (find "updatedAt" values) null refl;
    new_connections_listen_exists =
        assign-exists (find "newConnectionsListen" values) _
          (assign-exists (find "newConnections" values) (bool false) refl);
  }

  -- Whatever the constructor is given, the subscription is well-formed.
  pub new_subscription-IsWellFormed : (v : Value) → IsWellFormed (new_subscription now v)
  unfolding new_subscription
  new_subscription-IsWellFormed v = from_values-IsWellFormed (merged_values v)

  -- The attributes of a well-formed subscription give the subscription back, but for its creation
  -- date, which becomes the time of the call.
  pub new_subscription-get_attributes :
      (s : Subscription)
      → IsWellFormed s
      → new_subscription now (obj (get_attributes s)) ≡ record s { created_at = now }
  unfolding new_subscription get_attributes get_date
  new_subscription-get_attributes s h = λ i. record {
    database_id = assign_undefined s.database_id h.database_id_not_null i;
    subscription_id = assign_existing s.subscription_id (str "") h.subscription_id_exists i;
    client_id = assign-or_undefined s.client_id h.client_id_defined i;
    created_at = now;
    updated_at = assign-or_undefined s.updated_at h.updated_at_defined i;
    new_connections_listen =
        assign_existing s.new_connections_listen (bool false) h.new_connections_listen_exists i;
  }

  -- An entry of the cache, `{ key, value }`, gives the same subscription as its value.
  pub new_subscription-cached :
      (key : Value) (s : Subscription)
      → new_subscription now (obj (field "key" key (field "value" (obj (get_attributes s)) end)))
        ≡ new_subscription now (obj (get_attributes s))
  unfolding new_subscription get_attributes
  new_subscription-cached key s = refl

  -- The setters keep the invariant.
  pub subscription_setters-IsWellFormed :
      (s : Subscription) (id : String)
      → IsWellFormed s
      → IsWellFormed (set_database_id id s)
        × IsWellFormed (set_subscription_id now id s)
        × IsWellFormed (set_client_id now id s)
        × IsWellFormed (listen_new_connections now s)
        × IsWellFormed (ignore_new_connections now s)
  unfolding set_database_id set_subscription_id set_client_id listen_new_connections
      ignore_new_connections
  subscription_setters-IsWellFormed s id h =
      (ground arith, ground arith, ground arith, ground arith, ground arith)

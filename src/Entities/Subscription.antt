-- ===== src/Entities/Subscription.antt =====
-- src/modules/domain/entities/Subscription.entity.ts
pub mod Json
pub mod Laws
use node_ddd_boilerplate_typ.Base.{String, false, if◌then◌else◌, is_empty_text, true}
use node_ddd_boilerplate_typ.Entities.Abstract.{assign, exists, get_date, or_undefined}
use node_ddd_boilerplate_typ.Platform.{Platform}
use node_ddd_boilerplate_typ.Value.{
  Date, Fields, Value, bool, date, end, field, fields_of, find, get, null, obj, spread, str,
  undefined, values,
}

-- `SubscriptionEntity`
pub record Subscription : Type 0 where
  pub database_id : Value
  pub subscription_id : Value
  pub client_id : Value
  pub created_at : Date
  pub updated_at : Value
  pub new_connections_listen : Value

-- `getAttributes`
unfoldable pub get_attributes : Subscription → Fields
get_attributes s = field "id" s.database_id (
    field "subscriptionId" s.subscription_id (
      field "dataValues"
        (obj (
          field "clientId" (or_undefined s.client_id) (
            field "createdAt" (date s.created_at)
              (field "updatedAt" (or_undefined s.updated_at) end))))
        (field "listen" (obj (field "newConnections" s.new_connections_listen end)) end)))

-- `{ ...dataValues, ...dataValues?.value }`
abbrev pub new_data_values : Value → Fields
new_data_values data_values = spread (fields_of data_values) (fields_of (get data_values "value"))

-- `{ ...newDataValues, ...newDataValues?.listen, ...newDataValues.dataValues }`
abbrev pub merged_values : Value → Fields
merged_values data_values =
    let base = new_data_values data_values in
    spread (spread base (fields_of (find "listen" base))) (fields_of (find "dataValues" base))

-- The constructor behind the merge.
abbrev from_values : ⦃p : Platform⦄ → Date → Fields → Subscription
from_values now values = record {
  database_id = assign (find "id" values) (assign (find "_id" values) undefined);
  subscription_id = assign (find "subscriptionId" values) (str "");
  client_id = assign (find "clientId" values) null;
  new_connections_listen =
      assign (find "newConnectionsListen" values)
        (assign (find "newConnections" values) (bool false));
  updated_at = assign (find "updatedAt" values) null;
  created_at =
      if exists (find "createdAt" values)
      then get_date now (find "createdAt" values)
      else get_date now undefined;
}

-- The constructor.
unfoldable pub new_subscription : ⦃p : Platform⦄ → Date → Value → Subscription
new_subscription now data_values = from_values now (merged_values data_values)

-- `setDatabaseId`, which alone does not touch `updatedAt`.
pub set_database_id : String → Subscription → Subscription
set_database_id id s = if is_empty_text id then s else record s { database_id = str id }

-- `setSubscriptionId`
pub set_subscription_id : Date → String → Subscription → Subscription
set_subscription_id now id s = record s {
  subscription_id = if is_empty_text id then s.subscription_id else str id;
  updated_at = date now;
}

-- `setClientId`
pub set_client_id : Date → String → Subscription → Subscription
set_client_id now id s = record s {
  client_id = if is_empty_text id then s.client_id else str id;
  updated_at = date now;
}

-- `listenNewConnections`
pub listen_new_connections : Date → Subscription → Subscription
listen_new_connections now s = record s {
  new_connections_listen = bool true;
  updated_at = date now;
}

-- `ignoreNewConnections`
pub ignore_new_connections : Date → Subscription → Subscription
ignore_new_connections now s = record s {
  new_connections_listen = bool false;
  updated_at = date now;
}

-- ===== src/Entities/User.antt =====
-- src/modules/domain/entities/User.entity.ts
pub mod Laws
use node_ddd_boilerplate_typ.Entities.UserPreference
use node_ddd_boilerplate_typ.Base.{Option, String, if◌then◌else◌, is_empty_text, none, some}
use node_ddd_boilerplate_typ.Entities.Abstract.{assign, exists, get_date, or_undefined}
use node_ddd_boilerplate_typ.Entities.UserPreference.{
  UserPreference, new_user_preference, set_user_id,
}
use node_ddd_boilerplate_typ.Platform.{Platform}
use node_ddd_boilerplate_typ.Value.{
  Date, Fields, Value, date, end, field, get, null, obj, str, undefined,
}

-- `UserEntity`
pub record User : Type 0 where
  pub id : Value
  pub full_name : Value
  pub email : Value
  pub password : Value
  pub phone : Value
  pub doc_type : Value
  pub document : Value
  pub fu : Value
  pub preference : Option UserPreference
  pub created_at : Date
  pub updated_at : Value
  pub deleted_at : Value
  pub deleted_by : Value

-- `this.preference?.getAttributes() ?? undefined`
abbrev pub preference_attributes : Option UserPreference → Value
preference_attributes none = undefined
preference_attributes (some e) = obj (UserPreference.get_attributes e)

-- `getAttributes`
unfoldable pub get_attributes : User → Fields
get_attributes u = field "id" u.id (
    field "fullName" u.full_name (
      field "email" u.email (
        field "password" u.password (
          field "phone" (or_undefined u.phone) (
            field "docType" (or_undefined u.doc_type) (
              field "document" (or_undefined u.document) (
                field "fu" (or_undefined u.fu) (
                  field "preference" (preference_attributes u.preference) (
                    field "createdAt" (date u.created_at) (
                      field "updatedAt" (or_undefined u.updated_at) (
                        field "deletedAt" (or_undefined u.deleted_at)
                          (field "deletedBy" (or_undefined u.deleted_by) end))))))))))))

-- `this.preference?.setUserId(id)`
abbrev set_preference_user : Date → String → Option UserPreference → Option UserPreference
set_preference_user now id none = none
set_preference_user now id (some e) = some (UserPreference.set_user_id now id e)

-- `setId`
pub set_id : Date → String → User → User
set_id now id u = if is_empty_text id then u else record u {
  id = str id;
  preference = set_preference_user now id u.preference;
  updated_at = date now;
}

-- `setFullName`
pub set_full_name : Date → String → User → User
set_full_name now full_name u = record u { full_name = str full_name; updated_at = date now }

-- `setEmail`
pub set_email : Date → String → User → User
set_email now email u = record u { email = str email; updated_at = date now }

-- `setPassword`
unfoldable pub set_password : Date → String → User → User
set_password now password u = record u { password = str password; updated_at = date now }

-- `setPhone`
pub set_phone : Date → String → User → User
set_phone now phone u = record u { phone = str phone; updated_at = date now }

-- `setDocInfos`
pub set_doc_infos : Date → String → String → String → User → User
set_doc_infos now document doc_type fu u = record u {
  document = str document;
  doc_type = str doc_type;
  fu = str fu;
  updated_at = date now;
}

-- `setDeletedBy`
pub set_deleted_by : Date → String → User → User
set_deleted_by now agent_id u = record u {
  deleted_by = str agent_id;
  deleted_at = date now;
  updated_at = date now;
}

-- `setPreference`
unfoldable pub set_preference : UserPreference → User → User
set_preference e u = record u { preference = some e }

module _ ⦃p : Platform⦄ where
  -- `if (exists(preference)) this.preference = new UserPreferenceEntity(preference)`
  abbrev pub new_preference : Date → Value → Option UserPreference
  new_preference now v = if exists v then some (UserPreference.new_user_preference now v) else none

  -- The constructor.
  unfoldable pub new_user : Date → Value → User
  new_user now data_values = record {
    id = assign (get data_values "id") undefined;
    full_name = assign (get data_values "fullName") undefined;
    email = assign (get data_values "email") undefined;
    password = assign (get data_values "password") undefined;
    phone = assign (get data_values "phone") null;
    doc_type = assign (get data_values "docType") null;
    document = assign (get data_values "document") null;
    fu = assign (get data_values "fu") null;
    preference = new_preference now (get data_values "preference");
    created_at =
        if exists (get data_values "createdAt")
        then get_date now (get data_values "createdAt")
        else get_date now undefined;
    updated_at = assign (get data_values "updatedAt") null;
    deleted_at = assign (get data_values "deletedAt") null;
    deleted_by = assign (get data_values "deletedBy") null;
  }

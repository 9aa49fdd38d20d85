-- ===== src/Users/Strategy.antt =====
-- src/modules/app/user/strategies/User.strategy.ts
pub mod Diff
mod Tests
use node_ddd_boilerplate_typ.Base.{Bool, false, not, ◌&&◌, ◌||◌}
use node_ddd_boilerplate_typ.Entities.User.{User}
use node_ddd_boilerplate_typ.Value.{
  Fields, Value, arr, date, end, field, get, obj, strict_eq, truthy, undefined,
}

-- `UserAuthInterface`
pub record UserAuth : Type 0 where
  pub username : Value
  pub client_id : Value

-- `isAllowedToManageUser`
unfoldable pub is_allowed_to_manage_user : UserAuth → User → Bool
is_allowed_to_manage_user agent user =
    strict_eq agent.username user.email && strict_eq agent.client_id user.id

-- The change of one property, `inner` being the answer of the recursive call on it.
abbrev pub attribute_changed : Bool → Value → Value → Bool
attribute_changed inner entity_field undefined = false
attribute_changed inner entity_field (date d) = inner
attribute_changed inner entity_field (arr fs) = inner
attribute_changed inner entity_field (obj fs) = inner
attribute_changed inner entity_field v = not (strict_eq v entity_field)

-- `mustUpdate`; `must_update_any` is its `forEach` loop.
unfoldable mutual
  pub must_update : Value → Value → Bool
  must_update entity (arr fs) = truthy entity && must_update_any entity fs
  must_update entity (obj fs) = truthy entity && must_update_any entity fs
  must_update entity _ = false

  pub must_update_any : Value → Fields → Bool
  must_update_any entity end = false
  must_update_any entity (field k v fs) =
      attribute_changed (must_update (get entity k) v) (get entity k) v || must_update_any entity fs

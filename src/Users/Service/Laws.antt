-- ===== src/Users/Service/Laws.antt =====
-- Errors, reads and returned passwords of the user services.
use node_ddd_boilerplate_typ.Users.Service
use node_ddd_boilerplate_typ.Base.{Bool, String, arith, false, refl, ◌≡◌}
use node_ddd_boilerplate_typ.Effects.{
  Call, Ensures, Result, bind-Ensures, ok, or_raise, pure, raise_if, rethrow, rethrow-Ensures,
  settle, throw, ◌>>=◌,
}
use node_ddd_boilerplate_typ.Entities.User.{User, set_password}
use node_ddd_boilerplate_typ.Entities.UserPreference.{UserPreference}
use node_ddd_boilerplate_typ.Exceptions.{conflict, exception, with_message}
use node_ddd_boilerplate_typ.Platform.{Platform}
use node_ddd_boilerplate_typ.Repository.{find_one, list_with}
use node_ddd_boilerplate_typ.Repository.Laws.{IsInternal}
use node_ddd_boilerplate_typ.Users.PreferenceService.{
  create_own, delete_own, get_by_user_id, update_own,
}
use node_ddd_boilerplate_typ.Users.Query.{ListQuery}
use node_ddd_boilerplate_typ.Users.Repository.{create_user, get_user_by_id, list_users, update_user}
use node_ddd_boilerplate_typ.Users.Service.{
  Backend, caught_error, create, create_protected, delete, get_by_email, get_by_id, list,
  protect_password, text_of, update, update_protected, user_data, with_protected,
}
use node_ddd_boilerplate_typ.Value.{Date, Fields, Value, str}

settle-caught :
    ⦃p : Platform⦄ {S A : Type 0} (r : Result A) (s : S) → IsInternal (settle caught_error r s).0
unfolding exception
settle-caught (ok a) s = tt
settle-caught (throw e) s = refl

caught-IsInternal :
    ⦃p : Platform⦄ {S A : Type 0} (m : Call S A) (s : S) → IsInternal (rethrow m caught_error s).0
unfolding rethrow
caught-IsInternal m s = settle-caught (m s).0 (m s).1

-- The returned user's password is the empty text.
abbrev pub HasNoPassword : User → Type 0
HasNoPassword u = u.password ≡ str ""

pub set_password-HasNoPassword : (now : Date) (u : User) → HasNoPassword (set_password now "" u)
unfolding set_password
set_password-HasNoPassword now u = refl

module _ ⦃p : Platform⦄ {S : Type 0} (b : Backend S) (now : Date) where
  -- Whatever goes wrong inside, an exception of another kind that the method itself throws
  -- included, each method of both services that has a `catch` throws an error of status 500 or
  -- none.
  pub service_errors :
      (s : S) (id : String) (hide : Bool) (data' agent_id email : Value) (u : User)
      (e : UserPreference) (query : ListQuery) (soft : Bool)
      → IsInternal (Service.get_by_id b now id hide s).0
        × IsInternal (get_by_email b now email s).0
        × IsInternal (Service.create b now u s).0
        × IsInternal (Service.update b now id data' s).0
        × IsInternal (Service.delete b now id soft agent_id s).0
        × IsInternal (Service.list b now query s).0
        × IsInternal (get_by_user_id b now email s).0
        × IsInternal (create_own b now e s).0
        × IsInternal (update_own b now id data' s).0
        × IsInternal (delete_own b now id soft s).0
  unfolding Service.get_by_id get_by_email Service.create Service.update Service.delete Service.list
      get_by_user_id create_own update_own delete_own
  service_errors s id hide data' agent_id email u e query soft = (
    caught-IsInternal _ s,
    caught-IsInternal _ s,
    caught-IsInternal _ s,
    caught-IsInternal _ s,
    caught-IsInternal _ s,
    caught-IsInternal _ s,
    caught-IsInternal _ s,
    caught-IsInternal _ s,
    caught-IsInternal _ s,
    caught-IsInternal _ s,
  )

  -- `getById`, `getByEmail`, `list` and `getByUserId` leave the state as it is, whether they
  -- return or throw.
  pub service_reads :
      (s : S) (id : String) (hide : Bool) (email : Value) (query : ListQuery)
      → ((Service.get_by_id b now id hide s).1 ≡ s)
        × ((get_by_email b now email s).1 ≡ s)
        × ((Service.list b now query s).1 ≡ s)
        × ((get_by_user_id b now email s).1 ≡ s)
  unfolding Service.get_by_id get_by_email Service.list get_by_user_id get_user_by_id list_users
      find_one list_with rethrow
  service_reads s id hide email query = (ground arith, ground arith, ground arith, ground arith)

  create_protected-Ensures :
      (u : User) (protected : String) (s : S)
      → Ensures HasNoPassword (create_protected b now u protected s).0
  create_protected-Ensures u protected s =
      bind-Ensures HasNoPassword (create_user b.users now (set_password now protected u))
        (λ created. pure (set_password now "" created)) s
        (λ created t. set_password-HasNoPassword now created)

  update_protected-Ensures :
      (id : String) (fs : Fields) (s : S) → Ensures HasNoPassword (update_protected b now id fs s).0
  update_protected-Ensures id fs s =
      bind-Ensures HasNoPassword (update_user b.users now id fs)
        (λ updated.
          or_raise updated (exception conflict (with_message "User not updated!") false)
          >>= (λ user. pure (set_password now "" user)))
        s
        (λ updated t.
          bind-Ensures HasNoPassword (or_raise updated _) (λ user. pure (set_password now "" user))
            t (λ user u. set_password-HasNoPassword now user))

  -- If `create` or `update` of the user service returns, the password of the user that it returns
  -- is the empty text.
  pub service_hides_password :
      (s : S) (id : String) (data' : Value) (u : User)
      → Ensures HasNoPassword (Service.create b now u s).0
        × Ensures HasNoPassword (Service.update b now id data' s).0
  unfolding Service.create Service.update
  service_hides_password s id data' u = (
    rethrow-Ensures HasNoPassword caught_error _ s (
        bind-Ensures HasNoPassword (raise_if _ _)
          (λ x. protect_password b now (text_of u.password) >>= create_protected b now u) s
          (λ x t.
            bind-Ensures HasNoPassword (protect_password b now (text_of u.password))
              (create_protected b now u) t (create_protected-Ensures u))),
    rethrow-Ensures HasNoPassword caught_error _ s (
        bind-Ensures HasNoPassword (with_protected b now (user_data b now data'))
          (update_protected b now id) s (update_protected-Ensures id)),
  )

-- ===== src/Users/UseCases/Successes.antt =====
-- The use cases where everything that they call succeeds.
use node_ddd_boilerplate_typ.Users.Service
use node_ddd_boilerplate_typ.Base.{
  Bool, String, false, if◌then◌else◌, none, not, refl, some, true, ◌∙◌, ◌≡◌,
}
use node_ddd_boilerplate_typ.Effects.{bind-ok, ok, pure, raise_if, throw, ◌>>=◌, ◌>>◌}
use node_ddd_boilerplate_typ.Entities.User.{User, new_user, set_password, set_preference}
use node_ddd_boilerplate_typ.Entities.UserPreference.{
  UserPreference, new_user_preference, set_user_id,
}
use node_ddd_boilerplate_typ.Platform.{Platform}
use node_ddd_boilerplate_typ.Users.PreferenceService.{create_own, delete_own, get_by_user_id}
use node_ddd_boilerplate_typ.Users.Service.{
  Backend, delete, get_by_email, text_of, validate_password,
}
use node_ddd_boilerplate_typ.Users.Strategy.{UserAuth, is_allowed_to_manage_user}
use node_ddd_boilerplate_typ.Users.UseCases.{
  check_and_log_in, create_as, create_unless, create_user_use_case, delete_allowed, delete_as,
  delete_found, delete_last, delete_read, delete_user_use_case, log_in, log_in_found, log_in_with,
  login_user_use_case, may_not_delete, not_deleted, user_with_preference,
}
use node_ddd_boilerplate_typ.Users.UseCases.Reads.{with_agent-valid}
use node_ddd_boilerplate_typ.Value.{Date, Value, end, field, get, obj, str, truthy}

raise_unless :
    ⦃p : Platform⦄ {S : Type 0} (done : Bool) (s : S)
    → raise_if (not done) not_deleted s ≡ (if done then ok tt else throw not_deleted, s)
raise_unless true s = refl
raise_unless false s = refl

module _ ⦃p : Platform⦄ {S : Type 0} (b : Backend S) (now : Date) where
  -- If the user is found by e-mail and read, the password is valid, the preference is found and the
  -- token library signs the user's e-mail and identifier, login returns the user with that
  -- preference and the empty password, and the token, and writes nothing.
  pub login_user_use_case-ok :
      (email : Value) (password token : String) (known user : User) (e : UserPreference) (s : S)
      → Service.get_by_email b now email s ≡ (ok (some known), s)
      → Service.get_by_id b now (text_of known.id) false s ≡ (ok user, s)
      → validate_password b now user password s ≡ (ok tt, s)
      → get_by_user_id b now known.id s ≡ (ok e, s)
      → b.node.sign (obj (field "username" user.email (field "clientId" user.id end))) ≡ ok token
      → login_user_use_case b now email password s
        ≡ (ok (set_password now "" (set_preference e user), token), s)
  unfolding login_user_use_case set_password set_preference
  login_user_use_case-ok email password token known user e s found read valid preference signed =
      bind-ok (Service.get_by_email b now email) (log_in_found b now password) s s (some known)
        found
      ∙ bind-ok (Service.get_by_id b now (text_of known.id) false)
          (check_and_log_in b now password known) s s user read
      ∙ bind-ok (validate_password b now user password) (λ x. log_in b now known user) s s tt valid
      ∙ bind-ok (get_by_user_id b now known.id) (log_in_with b now user) s s e preference
      ∙ rw signed refl

  -- For an allowed agent with a client identifier, if the user and the preference are found and
  -- both deletions return, the deletion of a user is the deletion of the preference and then that
  -- of the user by the agent, both soft; it throws 500 if the latter answers false.
  pub delete_user_use_case-ok :
      (agent : UserAuth) (id : String) (user : User) (e : UserPreference) (first second : Bool)
      (s t u : S)
      → truthy agent.client_id ≡ true
      → Service.get_by_id b now id true s ≡ (ok user, s)
      → get_by_user_id b now (str id) s ≡ (ok e, s)
      → is_allowed_to_manage_user agent user ≡ true
      → delete_own b now (text_of e.id) true s ≡ (ok first, t)
      → Service.delete b now (text_of user.id) true agent.client_id t ≡ (ok second, u)
      → delete_user_use_case b now id (some agent) s
        ≡ (if second then ok tt else throw not_deleted, u)
  unfolding delete_user_use_case
  delete_user_use_case-ok agent id user e first second s t u valid found found_preference allowed
        preference_gone user_gone =
      with_agent-valid agent (delete_as b now id) s valid
      ∙ bind-ok (Service.get_by_id b now id true) (delete_found b now id agent) s s user found
      ∙ bind-ok (get_by_user_id b now (str id)) (delete_read b now agent user) s s e
          found_preference
      ∙ bind-ok (raise_if (not (is_allowed_to_manage_user agent user)) may_not_delete)
          (λ x. delete_allowed b now agent user e) s s tt (rw allowed refl)
      ∙ bind-ok (delete_own b now (text_of e.id) true) (λ x. delete_last b now agent user) s t first
          preference_gone
      ∙ bind-ok (Service.delete b now (text_of user.id) true agent.client_id)
          (λ done. raise_if (not done) not_deleted) t u second user_gone
      ∙ raise_unless second u

  -- For an agent with a client identifier, if no user has the e-mail, and the creation of the user,
  -- that of the preference under the identifier of the created user, and both reads by that
  -- identifier succeed, the creation of a user is these two creations in this order, and returns the
  -- user that is read with the preference that is read.
  pub create_user_use_case-ok :
      (agent : UserAuth) (data' : Value) (created user : User) (made_own e : UserPreference)
      (s t u : S)
      → truthy agent.client_id ≡ true
      → Service.get_by_email b now (new_user now data').email s ≡ (ok none, s)
      → Service.create b now (new_user now data') s ≡ (ok created, t)
      → create_own b now
          (set_user_id now (text_of created.id) (new_user_preference now (get data' "preference")))
          t
        ≡ (ok made_own, u)
      → Service.get_by_id b now (text_of created.id) true u ≡ (ok user, u)
      → get_by_user_id b now (str (text_of created.id)) u ≡ (ok e, u)
      → create_user_use_case b now data' (some agent) s ≡ (ok (set_preference e user), u)
  unfolding create_user_use_case
  create_user_use_case-ok agent data' created user made_own e s t u valid free stored stored_own
        read read_own =
      let id = text_of created.id in
      with_agent-valid agent (create_as b now data') s valid
      ∙ bind-ok (Service.get_by_email b now (new_user now data').email) (create_unless b now data')
          s s none free
      ∙ bind-ok (Service.create b now (new_user now data'))
          (λ made_user.
            create_own b now (
              set_user_id now (text_of made_user.id)
                (new_user_preference now (get data' "preference")))
            >> user_with_preference b now (text_of made_user.id))
          s t created stored
      ∙ bind-ok
          (create_own b now (set_user_id now id (new_user_preference now (get data' "preference"))))
          (λ x. user_with_preference b now id) t u made_own stored_own
      ∙ bind-ok (Service.get_by_id b now id true)
          (λ found.
            get_by_user_id b now (str id)
            >>= (λ preference. pure (set_preference preference found)))
          u u user read
      ∙ bind-ok (get_by_user_id b now (str id))
          (λ preference. pure (set_preference preference user)) u u e read_own

-- ===== src/Users/UseCases/Laws.antt =====
-- Guards, errors and writes of the use cases.
use node_ddd_boilerplate_typ.Users.Service
use node_ddd_boilerplate_typ.Base.{Option, String, ap, false, none, refl, some, true, ◌∙◌, ◌≡◌}
use node_ddd_boilerplate_typ.Effects.{bind-ok, bind-throw, ok, throw}
use node_ddd_boilerplate_typ.Entities.User.{User, new_user}
use node_ddd_boilerplate_typ.Entities.UserPreference.{UserPreference}
use node_ddd_boilerplate_typ.Exceptions.{Error}
use node_ddd_boilerplate_typ.Platform.{Platform}
use node_ddd_boilerplate_typ.Users.PreferenceService.{get_by_user_id}
use node_ddd_boilerplate_typ.Users.Service.{Backend, get_by_email, text_of, validate_password}
use node_ddd_boilerplate_typ.Users.Strategy.{UserAuth, is_allowed_to_manage_user}
use node_ddd_boilerplate_typ.Users.UseCases.{
  check_and_log_in, create_as, create_unless, create_user_use_case, delete_as, delete_found,
  delete_read, delete_user_use_case, get_user_use_case, has_client, invalid_agent, log_in,
  log_in_found, login_user_use_case, may_not_delete, may_not_update, must_update_preference,
  must_update_user, unknown_email, update_as, update_found, update_read, update_user_use_case,
  user_exists,
}
use node_ddd_boilerplate_typ.Users.UseCases.Reads.{
  user_with_preference-state, with_agent-invalid, with_agent-valid,
}
use node_ddd_boilerplate_typ.Value.{Date, Value, get, str, truthy}

module _ ⦃p : Platform⦄ {S : Type 0} (b : Backend S) (now : Date) where
  -- Without an agent that has a client identifier, creation, reading, update and deletion throw
  -- 401 and write nothing.
  pub use_cases_unauthorized :
      (agent : Option UserAuth) (id : String) (data' : Value) (s : S)
      → has_client agent ≡ false
      → (create_user_use_case b now data' agent s ≡ (throw invalid_agent, s))
        × (get_user_use_case b now id agent s ≡ (throw invalid_agent, s))
        × (update_user_use_case b now id data' agent s ≡ (throw invalid_agent, s))
        × (delete_user_use_case b now id agent s ≡ (throw invalid_agent, s))
  unfolding create_user_use_case get_user_use_case update_user_use_case delete_user_use_case
  use_cases_unauthorized agent id data' s h = (
    with_agent-invalid agent _ s h,
    with_agent-invalid agent _ s h,
    with_agent-invalid agent _ s h,
    with_agent-invalid agent _ s h,
  )

  -- For an agent with a client identifier, if the search by the e-mail of the new user finds a
  -- user, creation throws the conflict and writes nothing.
  pub create_user_use_case-conflict :
      (agent : UserAuth) (data' : Value) (u : User) (s : S)
      → truthy agent.client_id ≡ true
      → Service.get_by_email b now (new_user now data').email s ≡ (ok (some u), s)
      → create_user_use_case b now data' (some agent) s ≡ (throw user_exists, s)
  unfolding create_user_use_case
  create_user_use_case-conflict agent data' u s valid found =
      with_agent-valid agent (create_as b now data') s valid
      ∙ bind-ok (Service.get_by_email b now (new_user now data').email) (create_unless b now data')
          s s (some u) found

  -- For an agent with a client identifier, if the user and the preference are found and the agent
  -- is not allowed to manage the user, update and deletion throw 403 and write nothing.
  pub use_cases_forbidden :
      (agent : UserAuth) (id : String) (data' : Value) (u : User) (e : UserPreference) (s : S)
      → truthy agent.client_id ≡ true
      → Service.get_by_id b now id true s ≡ (ok u, s)
      → get_by_user_id b now (str id) s ≡ (ok e, s)
      → is_allowed_to_manage_user agent u ≡ false
      → (update_user_use_case b now id data' (some agent) s ≡ (throw may_not_update, s))
        × (delete_user_use_case b now id (some agent) s ≡ (throw may_not_delete, s))
  unfolding update_user_use_case delete_user_use_case
  use_cases_forbidden agent id data' u e s valid found found_preference other = (
    with_agent-valid agent (update_as b now id data') s valid
        ∙ bind-ok (Service.get_by_id b now id true) (update_found b now id data' agent) s s u found
        ∙ bind-ok (get_by_user_id b now (str id)) (update_read b now data' agent u) s s e
            found_preference
        ∙ rw other refl,
    with_agent-valid agent (delete_as b now id) s valid
        ∙ bind-ok (Service.get_by_id b now id true) (delete_found b now id agent) s s u found
        ∙ bind-ok (get_by_user_id b now (str id)) (delete_read b now agent u) s s e found_preference
        ∙ rw other refl,
  )

  -- If the user and the preference are found, the agent has a client identifier and is allowed to
  -- manage the user, and `mustUpdate` holds of neither, the update writes nothing.
  pub update_user_use_case-unchanged :
      (agent : UserAuth) (id : String) (data' : Value) (u : User) (e : UserPreference) (s : S)
      → truthy agent.client_id ≡ true
      → Service.get_by_id b now id true s ≡ (ok u, s)
      → get_by_user_id b now (str id) s ≡ (ok e, s)
      → is_allowed_to_manage_user agent u ≡ true
      → must_update_user b now u data' ≡ false
      → must_update_preference b now e (get data' "preference") ≡ false
      → (update_user_use_case b now id data' (some agent) s).1 ≡ s
  unfolding update_user_use_case
  update_user_use_case-unchanged agent id data' u e s valid found found_preference allowed same
        same_preference =
      ap (λ x. x.1)
        (with_agent-valid agent (update_as b now id data') s valid
          ∙ bind-ok (Service.get_by_id b now id true) (update_found b now id data' agent) s s u
              found
          ∙ bind-ok (get_by_user_id b now (str id)) (update_read b now data' agent u) s s e
              found_preference)
      ∙ rw (allowed, same, same_preference) (user_with_preference-state b now (text_of u.id) s)

  -- If the search by e-mail finds nobody, login throws 404 and writes nothing.
  pub login_user_use_case-unknown :
      (email : Value) (password : String) (s : S)
      → Service.get_by_email b now email s ≡ (ok none, s)
      → login_user_use_case b now email password s ≡ (throw unknown_email, s)
  unfolding login_user_use_case
  login_user_use_case-unknown email password s found =
      bind-ok (Service.get_by_email b now email) (log_in_found b now password) s s none found

  -- If the e-mail is found and its user is read, what the check of the password throws is what
  -- login throws, and nothing is written.
  pub login_user_use_case-wrong_password :
      (email : Value) (password : String) (known user : User) (error : Error) (s : S)
      → Service.get_by_email b now email s ≡ (ok (some known), s)
      → Service.get_by_id b now (text_of known.id) false s ≡ (ok user, s)
      → validate_password b now user password s ≡ (throw error, s)
      → login_user_use_case b now email password s ≡ (throw error, s)
  unfolding login_user_use_case
  login_user_use_case-wrong_password email password known user error s found read wrong =
      bind-ok (Service.get_by_email b now email) (log_in_found b now password) s s (some known)
        found
      ∙ bind-ok (Service.get_by_id b now (text_of known.id) false)
          (check_and_log_in b now password known) s s user read
      ∙ bind-throw (validate_password b now user password) (λ x. log_in b now known user) s s error
          wrong

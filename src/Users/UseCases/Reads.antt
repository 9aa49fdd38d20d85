-- ===== src/Users/UseCases/Reads.antt =====
-- What the use cases that only read return, and that they write nothing.
use node_ddd_boilerplate_typ.Users.Service
use node_ddd_boilerplate_typ.Base.{
  Bool-cases, Option, String, ap, false, inl, inr, none, refl, some, true, ◌∙◌, ◌≡◌,
}
use node_ddd_boilerplate_typ.Cryptography.{encode_jwt}
use node_ddd_boilerplate_typ.Effects.{
  Call, Ensures, bind-Ensures, bind-reads, or_raise, or_raise-state, pure, throw, ◌>>=◌,
}
use node_ddd_boilerplate_typ.Entities.User.{User, set_password, set_preference}
use node_ddd_boilerplate_typ.Platform.{Platform}
use node_ddd_boilerplate_typ.Users.PreferenceService.{get_by_user_id}
use node_ddd_boilerplate_typ.Users.Query.{ListQuery}
use node_ddd_boilerplate_typ.Users.Repository.{empty_query}
use node_ddd_boilerplate_typ.Users.Service.{Backend, get_by_email, text_of, validate_password}
use node_ddd_boilerplate_typ.Users.Service.Laws.{
  HasNoPassword, service_reads, set_password-HasNoPassword,
}
use node_ddd_boilerplate_typ.Users.Service.Passwords.{validate_password-state}
use node_ddd_boilerplate_typ.Users.Strategy.{UserAuth}
use node_ddd_boilerplate_typ.Users.UseCases.{
  auth_payload, check_and_log_in, get_as, get_user_use_case, has_client, invalid_agent,
  list_users_use_case, log_in, log_in_found, log_in_known, log_in_with, login_user_use_case,
  unknown_email, user_with_preference, with_agent,
}
use node_ddd_boilerplate_typ.Value.{Date, Value, str, truthy}

pub with_agent-invalid :
    ⦃p : Platform⦄ {S A : Type 0} (agent : Option UserAuth) (action : UserAuth → Call S A) (s : S)
    → has_client agent ≡ false
    → with_agent agent action s ≡ (throw invalid_agent, s)
with_agent-invalid none action s h = refl
with_agent-invalid (some agent) action s h = rw h refl

pub with_agent-valid :
    ⦃p : Platform⦄ {S A : Type 0} (agent : UserAuth) (action : UserAuth → Call S A) (s : S)
    → truthy agent.client_id ≡ true
    → with_agent (some agent) action s ≡ action agent s
with_agent-valid agent action s h = rw h refl

with_agent-state :
    ⦃p : Platform⦄ {S A : Type 0} (agent : Option UserAuth) (action : UserAuth → Call S A) (s : S)
    → ((a : UserAuth) → (action a s).1 ≡ s)
    → (with_agent agent action s).1 ≡ s
with_agent-state none action s h = refl
with_agent-state (some agent) action s h = elim (Bool-cases (truthy agent.client_id)) [
  | inl valid ↦ ap (λ x. x.1) (with_agent-valid agent action s valid) ∙ h agent
  | inr invalid ↦ ap (λ x. x.1) (with_agent-invalid (some agent) action s invalid)
]

with_agent-Ensures :
    ⦃p : Platform⦄ {S A : Type 0} (P : A → Type 0) (agent : Option UserAuth)
    (action : UserAuth → Call S A) (s : S)
    → ((a : UserAuth) → Ensures P (action a s).0)
    → Ensures P (with_agent agent action s).0
with_agent-Ensures P none action s h = tt
with_agent-Ensures P (some agent) action s h = elim (Bool-cases (truthy agent.client_id)) [
  | inl valid ↦ rw (with_agent-valid agent action s valid) (h agent)
  | inr invalid ↦ rw (with_agent-invalid (some agent) action s invalid) tt
]

module _ ⦃p : Platform⦄ {S : Type 0} (b : Backend S) (now : Date) where
  pub user_with_preference-state : (id : String) (s : S) → (user_with_preference b now id s).1 ≡ s
  user_with_preference-state id s =
      let (user, email, pages', preference) = service_reads b now s id true (str id) empty_query in
      bind-reads (Service.get_by_id b now id true)
        (λ u. get_by_user_id b now (str id) >>= (λ e. pure (set_preference e u))) s user
        (λ u found.
          bind-reads (get_by_user_id b now (str id)) (λ e. pure (set_preference e u)) s preference
            (λ e read. refl))

  abbrev LoggedSafe : User × String → Type 0
  LoggedSafe r = HasNoPassword r.0

  log_in-Ensures : (known user : User) (s : S) → Ensures LoggedSafe (log_in b now known user s).0
  log_in-Ensures known user s =
      bind-Ensures LoggedSafe (get_by_user_id b now known.id) (log_in_with b now user) s (λ e t.
        let logged = set_password now "" (set_preference e user) in
        bind-Ensures LoggedSafe (encode_jwt b.node (auth_payload b now logged))
          (λ token. pure (logged, token)) t
          (λ token u. set_password-HasNoPassword now (set_preference e user)))

  log_in_known-Ensures :
      (password : String) (known : User) (s : S)
      → Ensures LoggedSafe (log_in_known b now password known s).0
  log_in_known-Ensures password known s =
      bind-Ensures LoggedSafe (Service.get_by_id b now (text_of known.id) false)
        (check_and_log_in b now password known) s
        (λ user t.
          bind-Ensures LoggedSafe (validate_password b now user password)
            (λ x. log_in b now known user) t (λ x u. log_in-Ensures known user u))

  -- If reading a user, or a login, returns, the password of the user that it returns is the empty
  -- text.
  pub use_cases_hide_password :
      (agent : Option UserAuth) (id password : String) (email : Value) (s : S)
      → Ensures HasNoPassword (get_user_use_case b now id agent s).0
        × Ensures (λ r. HasNoPassword r.0) (login_user_use_case b now email password s).0
  unfolding get_user_use_case login_user_use_case
  use_cases_hide_password agent id password email s = (
    with_agent-Ensures HasNoPassword agent (get_as b now id) s (λ a.
        bind-Ensures HasNoPassword (user_with_preference b now id)
          (λ u. pure (set_password now "" u)) s (λ u t. set_password-HasNoPassword now u)),
    bind-Ensures LoggedSafe (Service.get_by_email b now email) (log_in_found b now password) s
        (λ found t.
          bind-Ensures LoggedSafe (or_raise found unknown_email) (log_in_known b now password) t
            (log_in_known-Ensures password)),
  )

  log_in-state : (known user : User) (s : S) → (log_in b now known user s).1 ≡ s
  log_in-state known user s =
      let (read, email, pages', preference) = service_reads b now s "" true known.id empty_query in
      bind-reads (get_by_user_id b now known.id) (log_in_with b now user) s preference (λ e read.
        let logged = set_password now "" (set_preference e user) in
        bind-reads (encode_jwt b.node (auth_payload b now logged)) (λ token. pure (logged, token)) s
          refl (λ token read. refl))

  log_in_known-state :
      (password : String) (known : User) (s : S) → (log_in_known b now password known s).1 ≡ s
  log_in_known-state password known s =
      let (read, email, pages', preference) =
        service_reads b now s (text_of known.id) false known.id empty_query in
      bind-reads (Service.get_by_id b now (text_of known.id) false)
        (check_and_log_in b now password known) s read
        (λ user found.
          bind-reads (validate_password b now user password) (λ x. log_in b now known user) s
            (validate_password-state b now user password s) (λ x valid. log_in-state known user s))

  -- Reading a user, listing the users and login leave the state as it is, whether they return or
  -- throw.
  pub use_cases_read :
      (agent : Option UserAuth) (id password : String) (email : Value) (query : ListQuery) (s : S)
      → ((get_user_use_case b now id agent s).1 ≡ s)
        × ((list_users_use_case b now query s).1 ≡ s)
        × ((login_user_use_case b now email password s).1 ≡ s)
  unfolding get_user_use_case login_user_use_case
  use_cases_read agent id password email query s =
      let (read, by_email, pages', preference) = service_reads b now s id true email query in
      (
        with_agent-state agent (get_as b now id) s (λ a.
            bind-reads (user_with_preference b now id) (λ u. pure (set_password now "" u)) s
              (user_with_preference-state id s) (λ u read. refl)),
        pages',
        bind-reads (Service.get_by_email b now email) (log_in_found b now password) s by_email
            (λ found known.
              bind-reads (or_raise found unknown_email) (log_in_known b now password) s
                (or_raise-state found unknown_email s)
                (λ user given. log_in_known-state password user s)),
      )

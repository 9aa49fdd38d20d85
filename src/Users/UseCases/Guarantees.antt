-- ===== src/Users/UseCases/Guarantees.antt =====
-- What must have held where a use case returns.
use node_ddd_boilerplate_typ.Users.Service
use node_ddd_boilerplate_typ.Base.{
  Bool, Bool-cases, Option, String, ap, false, inl, inr, is_some, none, not, refl, some, sym, true,
  ◌∙◌, ◌≡◌,
}
use node_ddd_boilerplate_typ.Cryptography.{encode_jwt}
use node_ddd_boilerplate_typ.Effects.{
  Call, Result, bind-returned, ok, or_raise, pure, raise_if, raise_if-returned, throw, ◌>>=◌, ◌>>◌,
}
use node_ddd_boilerplate_typ.Entities.User.{User, new_user, set_password, set_preference}
use node_ddd_boilerplate_typ.Entities.UserPreference.{
  UserPreference, new_user_preference, set_user_id,
}
use node_ddd_boilerplate_typ.Exceptions.{Error}
use node_ddd_boilerplate_typ.Platform.{Platform}
use node_ddd_boilerplate_typ.Users.PreferenceService.{create_own, delete_own, get_by_user_id}
use node_ddd_boilerplate_typ.Users.Service.{
  Backend, delete, get_by_email, text_of, validate_password,
}
use node_ddd_boilerplate_typ.Users.Strategy.{UserAuth, is_allowed_to_manage_user}
use node_ddd_boilerplate_typ.Users.UseCases.{
  auth_payload, check_and_log_in, create_as, create_unless, create_user_use_case, delete_allowed,
  delete_as, delete_found, delete_last, delete_read, delete_user_use_case, invalid_agent, log_in,
  log_in_found, log_in_known, log_in_with, login_user_use_case, may_not_delete, not_deleted,
  unknown_email, user_exists, user_with_preference, with_agent,
}
use node_ddd_boilerplate_typ.Users.UseCases.Reads.{with_agent-invalid, with_agent-valid}
use node_ddd_boilerplate_typ.Value.{Date, Value, get, str, truthy}

or_raise-returned :
    {S A : Type 0} (o : Option A) (x : Error) (s t : S) (a : A)
    → or_raise o x s ≡ (ok a, t)
    → (o ≡ some a) × (s ≡ t)
or_raise-returned none x s t a h = cc
or_raise-returned (some b) x s t a h = (cc, cc)

no_user : {A : Type 0} (o : Option A) → is_some o ≡ false → o ≡ none
no_user none h = refl
no_user (some a) h = cc

not-false : (b : Bool) → not b ≡ false → b ≡ true
not-false true h = refl
not-false false h = cc

module _ ⦃p : Platform⦄ {S : Type 0} (b : Backend S) (now : Date) where
  with_agent-returned :
      {A : Type 0} (agent : Option UserAuth) (action : UserAuth → Call S A) (s t : S) (a : A)
      → with_agent agent action s ≡ (ok a, t)
      → (u : UserAuth) × (agent ≡ some u) × (truthy u.client_id ≡ true) × (action u s ≡ (ok a, t))
  with_agent-returned {A} none action s t a h = cc
  with_agent-returned {A} (some u) action s t a h = elim (Bool-cases (truthy u.client_id)) [
    | inl valid ↦ (u, refl, valid, sym (with_agent-valid u action s valid) ∙ h)
    | inr no_client ↦
        let g : ◌≡◌ {A = Result A × S} (throw invalid_agent, s) (ok a, t) =
          sym (with_agent-invalid (some u) action s no_client) ∙ h in
        cc
  ]

  reads_sign :
      (user : User) (e : UserPreference) (s t : S) (r : User × String)
      → log_in_with b now user e s ≡ (ok r, t)
      → (b.node.sign (auth_payload b now r.0) ≡ ok r.1)
        × (r.0 ≡ set_password now "" (set_preference e user))
  reads_sign user e s t r h =
      let logged = set_password now "" (set_preference e user) in
      let (token, u, signed, same) =
        bind-returned (encode_jwt b.node (auth_payload b now logged)) (λ w. pure (logged, w)) s r t
          h in
      let pair : (logged, token) ≡ r = cc in
      (
        (λ i. b.node.sign (auth_payload b now (sym pair i).0))
            ∙ ap (λ x. x.0) signed
            ∙ ap (λ x. ok x.1) pair,
        sym (ap (λ x. x.0) pair),
      )

  -- What has happened where a login of a user has returned.
  abbrev pub LoggedIn : Value → String → User → String → S → Type 0
  LoggedIn email password user token s =
      (known stored : User) × (e : UserPreference) × (t v w z : S) × (Service.get_by_email b now
          email s
        ≡ (ok (some known), t))
      × (Service.get_by_id b now (text_of known.id) false t ≡ (ok stored, v))
      × (validate_password b now stored password v ≡ (ok tt, w))
      × (get_by_user_id b now known.id w ≡ (ok e, z))
      × (user ≡ set_password now "" (set_preference e stored))
      × (b.node.sign (auth_payload b now user) ≡ ok token)

  -- A login that returns has found a user by the e-mail, has read the user of that identifier and
  -- has checked the given password against what is stored of that user, which succeeded; the user it
  -- returns is that one, with a preference found by the identifier and the empty password, and the
  -- token is what the token library signs for exactly the returned user's e-mail and identifier.
  pub login_user_use_case_sound :
      (email : Value) (password token : String) (user : User) (s u : S)
      → login_user_use_case b now email password s ≡ (ok (user, token), u)
      → LoggedIn email password user token s
  unfolding login_user_use_case
  login_user_use_case_sound email password token user s u h =
      let (found, t1, searched, h1) =
        bind-returned (Service.get_by_email b now email) (log_in_found b now password) s
          (user, token) u h in
      let (known, t2, known_found, h2) =
        bind-returned (or_raise found unknown_email) (log_in_known b now password) t1 (user, token)
          u h1 in
      let (is_found, same) = or_raise-returned found unknown_email t1 t2 known known_found in
      let (stored, v, read, h3) =
        bind-returned (Service.get_by_id b now (text_of known.id) false)
          (check_and_log_in b now password known) t2 (user, token) u h2 in
      let (x, w, checked, h4) =
        bind-returned (validate_password b now stored password) (λ x. log_in b now known stored) v
          (user, token) u h3 in
      let (e, z, own_found, h5) =
        bind-returned (get_by_user_id b now known.id) (log_in_with b now stored) w (user, token) u
          h4 in
      let (signed, returned) = reads_sign stored e z u (user, token) h5 in
      (
        known,
        stored,
        e,
        t2,
        v,
        w,
        z,
        searched ∙ (λ i. (ok (is_found i), same i)),
        read,
        checked,
        own_found,
        returned,
        signed,
      )

  -- What has happened where a deletion of a user has returned.
  abbrev pub Deleted : String → Option UserAuth → S → S → Type 0
  Deleted id agent s u =
      (a : UserAuth) × (user : User) × (e : UserPreference) × (gone : Bool) × (t v w : S) × (agent
        ≡ some a)
      × (truthy a.client_id ≡ true)
      × (Service.get_by_id b now id true s ≡ (ok user, t))
      × (get_by_user_id b now (str id) t ≡ (ok e, v))
      × (is_allowed_to_manage_user a user ≡ true)
      × (delete_own b now (text_of e.id) true v ≡ (ok gone, w))
      × (Service.delete b now (text_of user.id) true a.client_id w ≡ (ok true, u))

  -- A deletion of a user that returns was asked for by an agent with a client identifier who may
  -- manage the user that was read under the identifier, and the preference found by the identifier
  -- and then that user were deleted, both softly, the user in the name of the agent and with the
  -- answer true.
  pub delete_user_use_case_sound :
      (id : String) (agent : Option UserAuth) (x : Unit {0}) (s u : S)
      → delete_user_use_case b now id agent s ≡ (ok x, u)
      → Deleted id agent s u
  unfolding delete_user_use_case
  delete_user_use_case_sound id agent x s u h =
      let (a, given, valid, h0) = with_agent-returned agent (delete_as b now id) s u x h in
      let (user, t1, read, h1) =
        bind-returned (Service.get_by_id b now id true) (delete_found b now id a) s x u h0 in
      let (e, t2, read_own, h2) =
        bind-returned (get_by_user_id b now (str id)) (delete_read b now a user) t1 x u h1 in
      let (y, t3, passed, h3) =
        bind-returned (raise_if (not (is_allowed_to_manage_user a user)) may_not_delete)
          (λ y. delete_allowed b now a user e) t2 x u h2 in
      let (gone, t4, own_gone, h4) =
        bind-returned (delete_own b now (text_of e.id) true) (λ y. delete_last b now a user) t3 x u
          h3 in
      let (done, t5, user_gone, h5) =
        bind-returned (Service.delete b now (text_of user.id) true a.client_id)
          (λ done. raise_if (not done) not_deleted) t4 x u h4 in
      let (answered, same) = raise_if-returned (not done) not_deleted t5 u x h5 in
      let (allowed, unchanged) =
        raise_if-returned (not (is_allowed_to_manage_user a user)) may_not_delete t2 t3 y passed in
      (
        a,
        user,
        e,
        gone,
        t1,
        t3,
        t4,
        given,
        valid,
        read,
        read_own ∙ (λ i. (ok e, unchanged i)),
        not-false (is_allowed_to_manage_user a user) allowed,
        own_gone,
        user_gone ∙ (λ i. (ok (not-false done answered i), same i)),
      )

  -- What has happened where a creation of a user has returned.
  abbrev pub Created : Value → Option UserAuth → User → S → S → Type 0
  Created data' agent user s u =
      (a : UserAuth) × (created : User) × (e : UserPreference) × (t v w : S) × (agent ≡ some a)
      × (truthy a.client_id ≡ true)
      × (Service.get_by_email b now (new_user now data').email s ≡ (ok none, t))
      × (Service.create b now (new_user now data') t ≡ (ok created, v))
      × (create_own b now
            (set_user_id now (text_of created.id)
              (new_user_preference now (get data' "preference")))
            v
          ≡ (ok e, w))
      × (user_with_preference b now (text_of created.id) w ≡ (ok user, u))

  -- A creation of a user that returns was asked for by an agent with a client identifier, at a time
  -- when the search for the e-mail of the new user found none; it has created the user, then the
  -- preference under the identifier of the created user, and returns the user of that identifier
  -- that was read behind that, with its preference.
  pub create_user_use_case_sound :
      (data' : Value) (agent : Option UserAuth) (user : User) (s u : S)
      → create_user_use_case b now data' agent s ≡ (ok user, u)
      → Created data' agent user s u
  unfolding create_user_use_case
  create_user_use_case_sound data' agent user s u h =
      let own_of = (λ (created : User).
        set_user_id now (text_of created.id) (new_user_preference now (get data' "preference"))) in
      let (a, given, valid, h0) = with_agent-returned agent (create_as b now data') s u user h in
      let (found, t1, searched, h1) =
        bind-returned (Service.get_by_email b now (new_user now data').email)
          (create_unless b now data') s user u h0 in
      let (y, t2, passed, h2) =
        bind-returned (raise_if (is_some found) user_exists)
          (λ y. Service.create b now (new_user now data') >>= (λ created.
            create_own b now (own_of created) >> user_with_preference b now (text_of created.id)))
          t1 user u h1 in
      let (created, t3, made, h3) =
        bind-returned (Service.create b now (new_user now data'))
          (λ created.
            create_own b now (own_of created) >> user_with_preference b now (text_of created.id))
          t2 user u h2 in
      let (e, t4, own_made, h4) =
        bind-returned (create_own b now (own_of created))
          (λ y. user_with_preference b now (text_of created.id)) t3 user u h3 in
      let (free, same) = raise_if-returned (is_some found) user_exists t1 t2 y passed in
      (
        a,
        created,
        e,
        t2,
        t3,
        t4,
        given,
        valid,
        searched ∙ (λ i. (ok (no_user found free i), same i)),
        made,
        own_made,
        h4,
      )

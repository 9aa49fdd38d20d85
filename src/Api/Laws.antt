-- ===== src/Api/Laws.antt =====
-- What reaches a handler, and what a caller gets who is not let through.
use node_ddd_boilerplate_typ.Users.Service
use node_ddd_boilerplate_typ.Api.{
  Rate, Throttler, Tracked, answer_hits, guarded, handle_request, handle_requests, rates_of,
  too_many,
}
use node_ddd_boilerplate_typ.Api.Users.{
  attributes, create_user_request, create_user_route, delete_user_request, delete_user_route,
  get_user_request, get_user_route, update_user_request, update_user_route,
}
use node_ddd_boilerplate_typ.Base.{
  Bool, Bool-cases, Option, String, ap, arith, false, inl, inr, ltb, refl, some, true, ℕ, ◌<◌, ◌∙◌,
  ◌≡◌, ◌≤◌, ◌⊎◌,
}
use node_ddd_boilerplate_typ.Cryptography.{NodeCrypto}
use node_ddd_boilerplate_typ.Effects.{
  Call, Result, bind-ok, bind-post, bind-state, bind-throw, ok, pure, reads, throw, ◌>>=◌,
}
use node_ddd_boilerplate_typ.Entities.User.{User}
use node_ddd_boilerplate_typ.Entities.UserPreference.{UserPreference}
use node_ddd_boilerplate_typ.Exceptions.{Error, exception, status_of}
use node_ddd_boilerplate_typ.Guards.{can_activate, rejected}
use node_ddd_boilerplate_typ.Platform.{Platform}
use node_ddd_boilerplate_typ.Users.PreferenceService.{get_by_user_id}
use node_ddd_boilerplate_typ.Users.Service.{Backend}
use node_ddd_boilerplate_typ.Users.Strategy.{UserAuth, is_allowed_to_manage_user}
use node_ddd_boilerplate_typ.Users.UseCases.{
  delete_user_use_case, may_not_delete, may_not_update, update_user_use_case,
}
use node_ddd_boilerplate_typ.Users.UseCases.Laws.{use_cases_forbidden}
use node_ddd_boilerplate_typ.Value.{Date, Value, str, truthy, undefined}

module _ ⦃p : Platform⦄ {S : Type 0} (throttler : Throttler S) (rate : Rate) where
  -- A request is let through exactly while it is within the limit; above it, it is answered with
  -- status 429.
  pub handle_request_answers :
      (total_hits time_to_expire : ℕ) (s t : S)
      → throttler.increment rate.key rate.ttl s ≡ (ok (total_hits, time_to_expire), t)
      → (((handle_request throttler rate s).0 ≡ ok true) × (total_hits ≤ rate.limit))
        ⊎ ((rate.limit < total_hits)
            × ((handle_request throttler rate s).0
                ≡ throw (too_many rate total_hits time_to_expire))
            × (status_of (too_many rate total_hits time_to_expire) ≡ some 429))
  unfolding handle_request exception
  handle_request_answers total_hits time_to_expire s t counted =
      let counts =
        bind-ok (throttler.increment rate.key rate.ttl) (answer_hits throttler rate) s t
          (total_hits, time_to_expire) counted in
      elim (Bool-cases (ltb rate.limit total_hits)) [
        | inl h ↦ inr (ground arith, ap (λ x. x.0) counts ∙ rw h refl, refl)
        | inr h ↦ inl (ap (λ x. x.0) counts ∙ rw h refl, ground arith)
      ]

module _ ⦃p : Platform⦄ {S : Type 0} (throttler : Throttler S) (tracked : Tracked) where
  -- The answer is an error, and nothing is written but what the throttlers write.
  abbrev pub IsRefused : {A : Type 0} → S → Result A × S → Type 0
  IsRefused s (r, t) =
      ((e : Error) × (r ≡ throw e)) × (t ≡ (handle_requests throttler (rates_of tracked) s).1)

  guarded-IsRefused :
      {A : Type 0} (node : NodeCrypto S) (authorization : Option String) (body : Result Value)
      (handler : Option UserAuth → Value → Call S A) (e : Error) (s : S)
      → can_activate node authorization ≡ throw e
      → IsRefused s (guarded throttler tracked node authorization body handler s)
  guarded-IsRefused {A} node authorization body handler e s rejected =
      let behind = (λ (x : Bool).
        reads (λ (u : S). can_activate node authorization)
        >>= (λ user. reads (λ u. body) >>= handler (some user))) in
      let thrown = (λ (x : Bool) (t : S).
        bind-throw (reads (λ u. can_activate node authorization))
          (λ user. reads (λ u. body) >>= handler (some user)) t t e (ap (λ r. (r, t)) rejected)) in
      (
        bind-post (λ y. (f : Error) × (y.0 ≡ throw f))
            (handle_requests throttler (rates_of tracked)) behind s
            (λ x t. (e, ap (λ y. y.0) (thrown x t))) (λ f t. (f, refl)),
        bind-state (handle_requests throttler (rates_of tracked)) behind s
            (λ x t. ap (λ y. y.1) (thrown x t)),
      )

  guarded-ok :
      {A : Type 0} (node : NodeCrypto S) (authorization : Option String) (data' : Value)
      (user : UserAuth) (handler : Option UserAuth → Value → Call S A) (s t : S)
      → handle_requests throttler (rates_of tracked) s ≡ (ok true, t)
      → can_activate node authorization ≡ ok user
      → guarded throttler tracked node authorization (ok data') handler s
        ≡ handler (some user) data' t
  guarded-ok node authorization data' user handler s t hit admitted =
      bind-ok (handle_requests throttler (rates_of tracked))
        (λ x.
          reads (λ u. can_activate node authorization)
          >>= (λ user. reads (λ u. ok data') >>= handler (some user)))
        s t true hit
      ∙ bind-ok (reads (λ u. can_activate node authorization))
          (λ user. reads (λ u. ok data') >>= handler (some user)) t t user
          (ap (λ r. (r, t)) admitted)

  module _ (b : Backend S) (now : Date) (authorization : Option String) where
    -- If its token is not accepted, a request to create, read, update or delete a user is answered
    -- with an error, and nothing is written but what the throttlers write, whatever they come to.
    pub user_requests-refuse :
        (id : String) (body : Result Value) (e : Error) (s : S)
        → can_activate b.node authorization ≡ throw e
        → IsRefused s (create_user_request b now throttler tracked authorization body s)
          × IsRefused s (get_user_request b now throttler tracked authorization id s)
          × IsRefused s (update_user_request b now throttler tracked authorization id body s)
          × IsRefused s (delete_user_request b now throttler tracked authorization id s)
    unfolding create_user_request get_user_request update_user_request delete_user_request
    user_requests-refuse id body e s rejected = (
      guarded-IsRefused b.node authorization body (create_user_route b now) e s rejected,
      guarded-IsRefused b.node authorization (ok undefined) (get_user_route b now id) e s rejected,
      guarded-IsRefused b.node authorization body (update_user_route b now id) e s rejected,
      guarded-IsRefused b.node authorization (ok undefined) (delete_user_route b now id) e s
          rejected,
    )

    -- If the throttlers let a request through, its token is accepted as that of an agent with a
    -- client identifier, the user and the preference of the identifier are found, and the agent may
    -- not manage that user, then the update with a valid body and the deletion of that user throw
    -- an error of status 403, and nothing is written behind what the throttlers write.
    pub user_requests-forbid :
        (agent : UserAuth) (id : String) (data' : Value) (u : User) (e : UserPreference) (s t : S)
        → handle_requests throttler (rates_of tracked) s ≡ (ok true, t)
        → can_activate b.node authorization ≡ ok agent
        → truthy agent.client_id ≡ true
        → Service.get_by_id b now id true t ≡ (ok u, t)
        → get_by_user_id b now (str id) t ≡ (ok e, t)
        → is_allowed_to_manage_user agent u ≡ false
        → (update_user_request b now throttler tracked authorization id (ok data') s
            ≡ (throw may_not_update, t))
          × (delete_user_request b now throttler tracked authorization id s
              ≡ (throw may_not_delete, t))
          × (status_of may_not_update ≡ some 403)
          × (status_of may_not_delete ≡ some 403)
    unfolding update_user_request delete_user_request exception
    user_requests-forbid agent id data' u e s t hit admitted valid found preference other =
        let (may_update, may_delete) =
          use_cases_forbidden b now agent id data' u e t valid found preference other in
        (
          guarded-ok b.node authorization data' agent (update_user_route b now id) s t hit admitted
              ∙ bind-throw (update_user_use_case b now id data' (some agent)) attributes t t
                  may_not_update may_update,
          guarded-ok b.node authorization undefined agent (delete_user_route b now id) s t hit
                admitted
              ∙ bind-throw (delete_user_use_case b now id (some agent)) (λ x. pure 204) t t
                  may_not_delete may_delete,
          refl,
          refl,
        )

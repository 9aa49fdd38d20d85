-- ===== src/Api/Tests.antt =====
-- The theorems on requests with concrete tables and a throttler that counts two hits.
use node_ddd_boilerplate_typ.Users.Service
use node_ddd_boilerplate_typ.Api.{
  Rate, Throttler, Tracked, handle_request, handle_requests, rates_of, too_many,
}
use node_ddd_boilerplate_typ.Api.Laws.{
  IsRefused, handle_request_answers, user_requests-forbid, user_requests-refuse,
}
use node_ddd_boilerplate_typ.Api.Users.{
  create_user_request, delete_user_request, get_user_request, update_user_request,
}
use node_ddd_boilerplate_typ.Base.{false, none, refl, some, true, ◌<◌, ◌≡◌, ◌≤◌, ◌⊎◌}
use node_ddd_boilerplate_typ.Cryptography.{decode_jwt, decoded}
use node_ddd_boilerplate_typ.Effects.{ok, rethrow, throw}
use node_ddd_boilerplate_typ.Entities.User.{new_user, set_preference}
use node_ddd_boilerplate_typ.Entities.UserPreference.{new_user_preference}
use node_ddd_boilerplate_typ.Exceptions.{status_of}
use node_ddd_boilerplate_typ.Guards.{can_activate, invalid}
use node_ddd_boilerplate_typ.Repository.{find_one}
use node_ddd_boilerplate_typ.Users.Example.{
  Tables, ann, ann_preference, backend, platform, tables, time,
}
use node_ddd_boilerplate_typ.Users.Mapper.{user_to_domain}
use node_ddd_boilerplate_typ.Users.PreferenceService.{get_by_user_id}
use node_ddd_boilerplate_typ.Users.Repository.{get_user_by_id}
use node_ddd_boilerplate_typ.Users.Service.{Backend}
use node_ddd_boilerplate_typ.Users.Strategy.{UserAuth, is_allowed_to_manage_user}
use node_ddd_boilerplate_typ.Users.UseCases.{may_not_delete, may_not_update}
use node_ddd_boilerplate_typ.Value.{Value, end, field, obj, str}

abbrev throttler : Throttler Tables
throttler = record {
  increment = λ key ttl s. (ok (2, 30), s);
  set_header = λ name v s. s;
  header_prefix = "X-RateLimit";
}

abbrev rate : Rate
rate = record { throttler_name = "short"; limit = 3; ttl = 1000; tracker = "ip"; key = "k" }

-- A backend whose token library accepts every token as Bob's.
abbrev bob_content : Value
bob_content = obj (field "username" (str "bob") (field "clientId" (str "u2") end))

abbrev bob : UserAuth
bob = record { username = str "bob"; client_id = str "u2" }

abbrev bob_backend : Backend Tables
bob_backend = record backend { node = record backend.node { verify = λ t. decoded bob_content } }

abbrev tracked : Tracked
tracked = ("ip", λ name. name)

let_through : handle_requests ⦃p = platform⦄ throttler (rates_of tracked) tables ≡ (ok true, tables)
unfolding handle_requests handle_request
let_through = refl

admitted_bob : can_activate ⦃p = platform⦄ bob_backend.node (some "Bearer x") ≡ ok bob
unfolding can_activate decode_jwt
admitted_bob = refl

found_ann : Service.get_by_id ⦃p = platform⦄ bob_backend time "u1" true tables ≡ (ok ann, tables)
unfolding Service.get_by_id get_user_by_id find_one rethrow
found_ann = refl

found_preference :
    get_by_user_id ⦃p = platform⦄ bob_backend time (str "u1") tables ≡ (ok ann_preference, tables)
unfolding get_by_user_id find_one rethrow
found_preference = refl

bob_not_allowed : is_allowed_to_manage_user bob ann ≡ false
unfolding is_allowed_to_manage_user user_to_domain new_user new_user_preference set_preference
bob_not_allowed = refl

handle_request_answers_example :
    (((handle_request ⦃p = platform⦄ throttler rate tables).0 ≡ ok true) × (2 ≤ 3))
    ⊎ ((3 < 2)
        × ((handle_request ⦃p = platform⦄ throttler rate tables).0
            ≡ throw (too_many ⦃p = platform⦄ rate 2 30))
        × (status_of (too_many ⦃p = platform⦄ rate 2 30) ≡ some 429))
handle_request_answers_example =
    handle_request_answers ⦃p = platform⦄ throttler rate 2 30 tables tables refl

no_token :
    can_activate ⦃p = platform⦄ bob_backend.node none
    ≡ throw (invalid ⦃p = platform⦄ "Authorization token is required")
unfolding can_activate
no_token = refl

user_requests-refuse_example :
    IsRefused ⦃p = platform⦄ throttler tracked tables (
      create_user_request ⦃p = platform⦄ bob_backend time throttler tracked none
        (ok bob_content)
        tables)
    × IsRefused ⦃p = platform⦄ throttler tracked tables
        (get_user_request ⦃p = platform⦄ bob_backend time throttler tracked none "u1" tables)
    × IsRefused ⦃p = platform⦄ throttler tracked tables (
        update_user_request ⦃p = platform⦄ bob_backend time throttler tracked none "u1"
          (ok bob_content)
          tables)
    × IsRefused ⦃p = platform⦄ throttler tracked tables
        (delete_user_request ⦃p = platform⦄ bob_backend time throttler tracked none "u1" tables)
user_requests-refuse_example =
    user_requests-refuse ⦃p = platform⦄ throttler tracked bob_backend time none "u1"
      (ok bob_content) (invalid ⦃p = platform⦄ "Authorization token is required") tables no_token

user_requests-forbid_example :
    (update_user_request ⦃p = platform⦄ bob_backend time throttler tracked
        (some "Bearer x")
        "u1"
        (ok bob_content)
        tables
      ≡ (throw (may_not_update ⦃p = platform⦄), tables))
    × (delete_user_request ⦃p = platform⦄ bob_backend time throttler tracked
          (some "Bearer x")
          "u1"
          tables
        ≡ (throw (may_not_delete ⦃p = platform⦄), tables))
    × (status_of (may_not_update ⦃p = platform⦄) ≡ some 403)
    × (status_of (may_not_delete ⦃p = platform⦄) ≡ some 403)
user_requests-forbid_example =
    user_requests-forbid ⦃p = platform⦄ throttler tracked bob_backend time (some "Bearer x") bob
      "u1" bob_content ann ann_preference tables tables let_through admitted_bob refl found_ann
      found_preference bob_not_allowed

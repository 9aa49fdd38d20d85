-- ===== src/Webhooks.antt =====
-- src/modules/app/hook/services/Webhook.service.ts
pub mod Laws
mod Tests
use node_ddd_boilerplate_typ.Base.{
  Bool, List, String, [], concat, false, if◌then◌else◌, is_empty_text, ltb, map, ℕ, ◌++◌, ◌||◌, ◌∷◌,
}
use node_ddd_boilerplate_typ.Cache.{
  CacheDriver, delete_cached, generate_key, get_by_key_pattern, get_cached, get_id, set_cached,
}
use node_ddd_boilerplate_typ.Effects.{Call, Result, ok, pure, reads, throw, ◌>>=◌, ◌>>◌}
use node_ddd_boilerplate_typ.Exceptions.{Error}
use node_ddd_boilerplate_typ.Platform.{Platform}
use node_ddd_boilerplate_typ.Rest.{request_hook}
use node_ddd_boilerplate_typ.Value.{
  Date, Fields, Value, at_ms, date, end, find, get, obj, or_else, put, str, truthy, undefined,
}

-- The parts of the outside world that the service uses, and its settings.
pub record HookServices (S : Type 0) : Type 0 where
  pub cache : CacheDriver S
  -- `client.request` of the REST client's library.
  pub request : Fields → Call S Value
  -- `new Date(text)`
  pub new_date : String → Date
  -- `text.toLowerCase()`
  pub to_lower_case : String → String
  -- The error of a method that is called on an undefined value.
  pub type_error : Error
  pub time_to_live : ℕ
  pub base_url : String

-- `generateKey(schema + ":" + id, CacheEnum.HOOKS)`
abbrev pub hook_key : String → String → String
hook_key hook_schema id = generate_key (concat hook_schema (concat ":" id)) "hooks"

-- `getId(getId(key, CacheEnum.HOOKS), hookSchema)`
abbrev pub hook_id : String → String → String
hook_id hook_schema key = get_id (get_id key "hooks") hook_schema

-- `data.sendAt = new Date(data.sendAt)`, if that is a text with a character.
abbrev pub with_date : (String → Date) → Value → Fields → Fields
with_date new_date (str s) fs = if is_empty_text s then fs else put "sendAt" (date (new_date s)) fs
with_date new_date v fs = fs

-- `payloadBuilder`
abbrev pub payload_builder : (String → Date) → Value → Value
payload_builder new_date (obj fs) = obj (with_date new_date (find "sendAt" fs) fs)
payload_builder new_date v = v

-- The time of sending is before the current time; a time that is not valid is never past.
abbrev pub is_past : Date → Value → Bool
is_past (at_ms now) (date (at_ms t)) = ltb t now
is_past now v = false

-- `epochDateNow > epochSentAt`
abbrev pub is_due : Date → Value → Bool
is_due now hook =
    if truthy (get hook "sendAt")
    then is_past now (get hook "sendAt")
    else is_past now (date (at_ms 0))

-- `hook?.responseMethod?.toLowerCase()`; a method is a text or missing.
abbrev pub lower_method : (String → String) → Value → Value
lower_method to_lower_case (str s) = str (to_lower_case s)
lower_method to_lower_case v = undefined

-- What `list` makes of an entry of the cache.
abbrev pub listed_hook : (String → Date) → Value → Value × Value
listed_hook new_date e = (get e "key", payload_builder new_date (get e "value"))

-- What the calls that `pullHook` starts come to, in the order in which they are awaited.
pub record Started : Type 0 where
  pub deletions : List (Result Bool)
  pub requests : List (Result Value)

abbrev pub first_throw : {A : Type 0} → List (Result A) → Result (Unit {0})
first_throw [] = ok tt
first_throw (ok a ∷ rs) = first_throw rs
first_throw (throw e ∷ rs) = throw e

-- `await Promise.all(hooksToDelete); await Promise.all(hooksToPull)`
abbrev pub awaited : Started → Result (Unit {0})
awaited x = elim (first_throw x.deletions) [ ok u ↦ first_throw x.requests | throw e ↦ throw e ]

module _ ⦃p : Platform⦄ {S : Type 0} (services : HookServices S) (now : Date) where
  -- `get`
  unfoldable pub get_hook : String → String → Call S Value
  get_hook id hook_schema = do
    result ← get_cached services.cache (hook_key hook_schema id)
    pure (payload_builder services.new_date result)

  -- `save`; the first argument is the identifier that is generated.
  unfoldable pub save_hook : String → String → Value → Call S String
  save_hook uuid hook_schema data' =
      set_cached services.cache (hook_key hook_schema uuid)
        (payload_builder services.new_date data') services.time_to_live

  -- `delete`
  unfoldable pub delete_hook : String → String → Call S Bool
  delete_hook id hook_schema = do
    deleted ← delete_cached services.cache (hook_key hook_schema id)
    pure (ltb 0 deleted)

  -- `list`
  unfoldable pub list_hooks : String → Call S (List (Value × Value))
  list_hooks additional_pattern = do
    result ←
        get_by_key_pattern services.cache
          (concat "hooks" (concat ":" (concat additional_pattern "*")))
    pure (map (listed_hook services.new_date) result)

  -- The request of a hook that has a method and an endpoint.
  abbrev pub start_request : Value → Value → Value → S → List (Result Value) × S
  start_request (str endpoint) (str method) data' s =
      if is_empty_text method || is_empty_text endpoint
      then ([], s)
      else (let (r, t) = request_hook services.request method endpoint (obj end) data' s in
          (r ∷ [], t))
  start_request endpoint method data' s = ([], s)

  abbrev pub endpoint_of : Value → Value
  endpoint_of hook = or_else (get hook "responseEndpoint") (str services.base_url)

  abbrev pub method_of : Value → Value
  method_of hook = lower_method services.to_lower_case (get hook "responseMethod")

  -- The deletion of a hook: a hook without a key makes the computation of its identifier throw.
  abbrev pub start_deletion : String → Value → S → Result (Result Bool) × S
  start_deletion hook_schema (str key) s =
      let (r, t) = delete_hook (hook_id hook_schema key) hook_schema s in (ok r, t)
  start_deletion hook_schema key s = (throw services.type_error, s)

  abbrev pub with_requests :
      List (Result Value)
      → Result (Result Bool) × S
      → Result (Result Bool × List (Result Value)) × S
  with_requests requests (ok d, u) = (ok (d, requests), u)
  with_requests requests (throw e, u) = (throw e, u)

  -- The body of the loop for a hook that is due.
  abbrev pub start_hook :
      String → Value → Value × Value → Call S (Result Bool × List (Result Value))
  start_hook hook_schema data' (key, hook) s =
      let (requests, t) = start_request (endpoint_of hook) (method_of hook) data' s in
      with_requests requests (start_deletion hook_schema key t)

  abbrev pub add_started : Result Bool × List (Result Value) → Started → Started
  add_started (d, rs) more = record {
    deletions = d ∷ more.deletions;
    requests = rs ++ more.requests;
  }

  -- The body of the loop for a hook that is due, and the rest of the loop.
  abbrev pub start_and_go_on : String → Value → Value × Value → Call S Started → Call S Started
  start_and_go_on hook_schema data' h rest = do
    x ← start_hook hook_schema data' h
    more ← rest
    pure (add_started x more)

  -- The loop of `pullHook`.
  unfoldable pub start_hooks : String → Value → List (Value × Value) → Call S Started
  start_hooks hook_schema data' [] s = (ok (record { deletions = []; requests = [] }), s)
  start_hooks hook_schema data' (h ∷ hs) s =
      let rest = start_hooks hook_schema data' hs in
      if is_due now h.1 then start_and_go_on hook_schema data' h rest s else rest s

  -- `pullHook` behind the list.
  abbrev pub pull_listed : String → Value → List (Value × Value) → Call S (Unit {0})
  pull_listed hook_schema data' hooks = do
    started ← start_hooks hook_schema data' hooks
    reads (λ s. awaited started)

  -- `pullHook`
  unfoldable pub pull_hook : String → Value → Call S (Unit {0})
  pull_hook hook_schema data' = do
    hooks ← list_hooks hook_schema
    pull_listed hook_schema data' hooks

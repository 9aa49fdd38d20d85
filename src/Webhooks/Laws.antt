-- ===== src/Webhooks/Laws.antt =====
-- Which hooks are pulled, and what becomes of them.
use node_ddd_boilerplate_typ.Base.{
  Bool, Bool-cases, List, String, [], ap, arith, concat, false, if◌then◌else◌, inl, inr, length,
  ltb, refl, suc, sym, true, ℕ, ◌<◌, ◌↔◌, ◌∙◌, ◌∷◌, ◌≡◌, ◌⊎◌,
}
use node_ddd_boilerplate_typ.Cache.{get_id}
use node_ddd_boilerplate_typ.Cache.Laws.{get_id-generate_key}
use node_ddd_boilerplate_typ.Effects.{Result, bind-ok, bind-state, ok, pure, reads, ◌>>=◌}
use node_ddd_boilerplate_typ.Platform.{Platform}
use node_ddd_boilerplate_typ.Value.{Date, Value, at_ms, date, get, str, truthy}
use node_ddd_boilerplate_typ.Webhooks.{
  HookServices, Started, add_started, awaited, delete_hook, endpoint_of, hook_id, hook_key, is_due,
  list_hooks, method_of, pull_hook, pull_listed, start_deletion, start_hook, start_hooks,
  start_request, with_requests,
}

-- The identifier that a pulled hook is deleted by is the one that it was saved under.
pub hook_id-hook_key :
    (hook_schema id : String) → hook_id hook_schema (hook_key hook_schema id) ≡ id
hook_id-hook_key hook_schema id =
    ap (λ k. get_id k hook_schema)
      (get_id-generate_key (concat hook_schema (concat ":" id)) "hooks")
    ∙ get_id-generate_key id hook_schema

-- A hook with a valid time of sending is due when that time is past, and one without at any time
-- after the epoch.
pub is_due_iff :
    (now t : ℕ) (hook : Value)
    → get hook "sendAt" ≡ date (at_ms t) ⊎ (truthy (get hook "sendAt") ≡ false) × (t ≡ 0)
    → (is_due (at_ms now) hook ≡ true) ↔ (t < now)
is_due_iff now t hook (inl dated) = rw dated (ground arith)
is_due_iff now t hook (inr (undated, epoch)) = rw (undated, epoch) (ground arith)

-- Each entry of a list has a key of the schema.
abbrev pub AreOwn : String → List (Value × Value) → Type 0
AreOwn hook_schema [] = Unit
AreOwn hook_schema ((key, hook) ∷ hs) =
    ((id : String) × (key ≡ str (hook_key hook_schema id))) × AreOwn hook_schema hs

-- No entry of a list is due.
abbrev pub NoneDue : Date → List (Value × Value) → Type 0
NoneDue now [] = Unit
NoneDue now ((key, hook) ∷ hs) = (is_due now hook ≡ false) × NoneDue now hs

-- The number of entries of a list that are due.
abbrev pub due_count : Date → List (Value × Value) → ℕ
due_count now [] = 0
due_count now ((key, hook) ∷ hs) =
    let rest = due_count now hs in if is_due now hook then suc rest else rest

module _ ⦃p : Platform⦄ {S : Type 0} (services : HookServices S) (now : Date) where
  -- The key of an entry is deleted from the cache.
  abbrev pub drop_key : Value → S → S
  drop_key (str key) s = (services.cache.del key s).1
  drop_key key s = s

  -- The specification: each hook that is due is requested, if it has a method and an endpoint, and
  -- then its own key is deleted.
  abbrev pub pulled_one : Value → Value × Value → S → S
  pulled_one data' (key, hook) s =
      drop_key key
        (start_request services now (endpoint_of services now hook) (method_of services now hook)
          data' s).1

  abbrev pub pulled : Value → List (Value × Value) → S → S
  pulled data' [] s = s
  pulled data' ((key, hook) ∷ hs) s =
      let rest = pulled data' hs in
      if is_due now hook then rest (pulled_one data' (key, hook) s) else rest s

  delete_hook-state :
      (hook_schema id : String) (s : S)
      → (delete_hook services now id hook_schema s).1
        ≡ (services.cache.del (hook_key hook_schema id) s).1
  unfolding delete_hook
  delete_hook-state hook_schema id s =
      bind-state (services.cache.del (hook_key hook_schema id)) (λ n. pure (ltb 0 n)) s
        (λ n t. refl)

  start_deletion-own :
      (hook_schema id : String) (s : S)
      → (r : Result Bool) × (start_deletion services now hook_schema
            (str (hook_key hook_schema id))
            s
          ≡ (ok r, drop_key (str (hook_key hook_schema id)) s))
  start_deletion-own hook_schema id s = (
    (delete_hook services now (hook_id hook_schema (hook_key hook_schema id)) hook_schema s).0,
    ap
        (λ t. (
          ok
              (delete_hook services now (hook_id hook_schema (hook_key hook_schema id)) hook_schema
                s).0,
          t,
        ))
        (delete_hook-state hook_schema (hook_id hook_schema (hook_key hook_schema id)) s
          ∙ ap (λ i. (services.cache.del (hook_key hook_schema i) s).1)
              (hook_id-hook_key hook_schema id)),
  )

  start_hook-own :
      (hook_schema id : String) (data' key hook : Value) (s : S)
      → key ≡ str (hook_key hook_schema id)
      → (x : Result Bool × List (Result Value)) × (start_hook services now hook_schema data'
            (key, hook)
            s
          ≡ (ok x, pulled_one data' (key, hook) s))
  start_hook-own hook_schema id data' key hook s keyed =
      let requested =
        start_request services now (endpoint_of services now hook) (method_of services now hook)
          data' s in
      let (r, deleted) = start_deletion-own hook_schema id requested.1 in
      (
        (r, requested.0),
        ap
              (λ k.
                with_requests services now requested.0
                  (start_deletion services now hook_schema k requested.1))
              keyed
            ∙ ap (with_requests services now requested.0) deleted
            ∙ ap (λ k. (ok (r, requested.0), drop_key k requested.1)) (sym keyed),
      )

  -- Pulling hooks that all have a key of the schema starts, for each hook that is due and for no
  -- other, its request and the deletion of the very key it was listed by, whatever the requests and
  -- the deletions come to.
  pub start_hooks-own :
      (hook_schema : String) (data' : Value) (hooks : List (Value × Value)) (s : S)
      → AreOwn hook_schema hooks
      → (x : Started) × (start_hooks services now hook_schema data' hooks s
          ≡ (ok x, pulled data' hooks s))
        × (length x.deletions ≡ due_count now hooks)
  unfolding start_hooks
  start_hooks-own hook_schema data' [] s owned =
      (record { deletions = []; requests = [] }, refl, refl)
  start_hooks-own hook_schema data' ((key, hook) ∷ hs) s ((id, keyed), owned) =
      elim (Bool-cases (is_due now hook)) [
        | inl due ↦
            (let (x, started, counted) =
                start_hooks-own hook_schema data' hs (pulled_one data' (key, hook) s) owned in
              let (y, one) = start_hook-own hook_schema id data' key hook s keyed in
              (
                add_started services now y x,
                rw due (
                    bind-ok (start_hook services now hook_schema data' (key, hook))
                      (λ y.
                        start_hooks services now hook_schema data' hs
                        >>= (λ more. pure (add_started services now y more)))
                      s (pulled_one data' (key, hook) s) y one
                    ∙ bind-ok (start_hooks services now hook_schema data' hs)
                        (λ more. pure (add_started services now y more))
                        (pulled_one data' (key, hook) s)
                        (pulled data' hs (pulled_one data' (key, hook) s)) x started),
                rw due (ap suc counted),
              ))
        | inr waits ↦
            (let (x, started, counted) = start_hooks-own hook_schema data' hs s owned in
              (x, rw waits started, rw waits counted))
      ]

  start_hooks-NoneDue :
      (hook_schema : String) (data' : Value) (hooks : List (Value × Value)) (s : S)
      → NoneDue now hooks
      → start_hooks services now hook_schema data' hooks s
        ≡ (ok (record { deletions = []; requests = [] }), s)
  unfolding start_hooks
  start_hooks-NoneDue hook_schema data' [] s waits = refl
  start_hooks-NoneDue hook_schema data' ((key, hook) ∷ hs) s (one, waits) =
      rw one (start_hooks-NoneDue hook_schema data' hs s waits)

  -- If the list is read and none of its hooks is due, pulling returns and nothing is requested,
  -- deleted or otherwise written.
  pub pull_hook-waits :
      (hook_schema : String) (data' : Value) (hooks : List (Value × Value)) (s : S)
      → list_hooks services now hook_schema s ≡ (ok hooks, s)
      → NoneDue now hooks
      → pull_hook services now hook_schema data' s ≡ (ok tt, s)
  unfolding pull_hook
  pull_hook-waits hook_schema data' hooks s listed waits =
      bind-ok (list_hooks services now hook_schema) (pull_listed services now hook_schema data') s s
        hooks listed
      ∙ bind-ok (start_hooks services now hook_schema data' hooks) (λ x. reads (λ t. awaited x)) s s
          (record { deletions = []; requests = [] })
          (start_hooks-NoneDue hook_schema data' hooks s waits)

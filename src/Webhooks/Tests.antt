-- ===== src/Webhooks/Tests.antt =====
-- The theorems on the hooks with an outside world that notes what is asked of it.
use node_ddd_boilerplate_typ.Base.{[], length, refl, ◌∷◌, ◌≡◌}
use node_ddd_boilerplate_typ.Effects.{ok}
use node_ddd_boilerplate_typ.Events.Example.{reading, trace_hooks}
use node_ddd_boilerplate_typ.Value.{Value, at_ms, date, end, field, null, obj, str}
use node_ddd_boilerplate_typ.Webhooks.{Started, hook_key, list_hooks, pull_hook, start_hooks}
use node_ddd_boilerplate_typ.Webhooks.Laws.{pull_hook-waits, pulled, start_hooks-own}

abbrev due_hook : Value × Value
due_hook = (
  str (hook_key "NEW" "h1"),
  obj (field "responseMethod" (str "get") (field "sendAt" (date (at_ms 3)) end)),
)

abbrev late_hook : Value
late_hook = obj (field "sendAt" (date (at_ms 30)) end)

start_hooks-own_example :
    (x : Started) × (start_hooks ⦃p = reading null⦄ trace_hooks
        (at_ms 9)
        "NEW"
        null
        (due_hook ∷ [])
        []
      ≡ (ok x, pulled ⦃p = reading null⦄ trace_hooks (at_ms 9) null (due_hook ∷ []) []))
    × (length x.deletions ≡ 1)
start_hooks-own_example =
    start_hooks-own ⦃p = reading null⦄ trace_hooks (at_ms 9) "NEW" null (due_hook ∷ []) []
      (("h1", refl), tt)

pull_hook-waits_example :
    pull_hook ⦃p = reading late_hook⦄ trace_hooks (at_ms 9) "NEW" null [] ≡ (ok tt, [])
unfolding list_hooks
pull_hook-waits_example =
    pull_hook-waits ⦃p = reading late_hook⦄ trace_hooks (at_ms 9) "NEW" null
      ((str "hooks:NEW:h1", late_hook) ∷ []) [] refl (refl, tt)

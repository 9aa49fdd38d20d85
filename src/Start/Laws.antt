-- ===== src/Start/Laws.antt =====
-- When the sockets are disconnected, and that the shutdown goes through.
use node_ddd_boilerplate_typ.Base.{Bool, Bool-cases, ap, false, inl, inr, refl, true, ◌∙◌, ◌≡◌, ◌⊎◌}
use node_ddd_boilerplate_typ.Effects.{Call, Result, bind-ok, ok, throw, ◌>>◌}
use node_ddd_boilerplate_typ.Start.{
  Active, Closing, Services, attempt, attempt_if, before_application_shutdown, bool_or_false,
  close_cache, close_datalake, disconnect_unless, execute, flags, look, on_module_destroy,
  test_connection,
}

attempt-returns : {S A : Type 0} (m : Call S A) (s : S) → attempt m s ≡ (ok tt, (m s).1)
attempt-returns m s = refl

module _ {S : Type 0} (c : Closing S) where
  attempt_if-returns :
      {A : Type 0} (test : Bool) (m : Call S A) (s : S)
      → (t : S) × (attempt_if c test m s ≡ (ok tt, t))
  attempt_if-returns true m s = ((m s).1, refl)
  attempt_if-returns false m s = (s, refl)

  -- Whatever the cron registry, the sockets, the cloud clients and the connections throw while they
  -- are closed, both steps of the shutdown return.
  pub shutdown_returns :
      (s : S) → ((on_module_destroy c s).0 ≡ ok tt) × ((before_application_shutdown c s).0 ≡ ok tt)
  unfolding on_module_destroy before_application_shutdown
  shutdown_returns s =
      let (t, cache) = attempt_if-returns (c.cache_is_connected s) c.disconnect_cache s in
      let (u, datalake) = attempt_if-returns (c.datalake_is_connected t) c.disconnect_datalake t in
      (
        refl,
        ap (λ x. x.0)
            (bind-ok (close_cache c) (λ x. close_datalake c >> attempt c.connection.destroy) s t tt
                cache
              ∙ bind-ok (close_datalake c) (λ x. attempt c.connection.destroy) t u tt datalake),
      )

module _ {S : Type 0} (services : Services S) where
  -- If the database, the data lake, the cache and the socket are all connected, a run of the cron
  -- task changes nothing.
  pub execute-idle :
      (s : S)
      → services.database.is_initialized s ≡ ok true
      → services.datalake_is_connected s ≡ true
      → services.cache_is_connected s ≡ true
      → services.websocket_is_connected s ≡ ok true
      → execute services s ≡ (ok tt, s)
  unfolding execute test_connection
  execute-idle s database datalake cache websocket = rw (database, websocket, datalake, cache) refl

  flags-connected :
      (database : Bool) (websocket : Result Bool) (s : S)
      → ((flags services database websocket s).0.datalake_is_active
          ≡ services.datalake_is_connected s)
        × ((flags services database websocket s).0.cache_is_active ≡ services.cache_is_connected s)
  flags-connected database (throw e) s = (refl, refl)
  flags-connected database (ok websocket) s = (refl, refl)

  disconnect_unless-down :
      (a : Active) (s : S)
      → a.datalake_is_active ≡ false ⊎ a.cache_is_active ≡ false
      → disconnect_unless services a s ≡ services.disconnect_all_sockets s
  disconnect_unless-down a s (inl h) = elim (Bool-cases (a.cache_is_active)) [
    | inl up ↦ rw (up, h) refl
    | inr down ↦ rw down refl
  ]
  disconnect_unless-down a s (inr h) = rw h refl

  -- If the data lake or the cache is not connected, a run of the cron task ends by disconnecting all
  -- sockets, in the state behind its tests and with the outcome of that, whatever its tests of the
  -- database and of the socket come to.
  pub execute-disconnects :
      (s : S)
      → services.datalake_is_connected s ≡ false ⊎ services.cache_is_connected s ≡ false
      → execute services s ≡ services.disconnect_all_sockets (look services s).1
  unfolding execute
  execute-disconnects s (inl down) =
      disconnect_unless-down (look services s).0 (look services s).1 (
        inl (
          (flags-connected (bool_or_false services (test_connection services.database s).0)
            (services.websocket_is_connected s) s).0
          ∙ down))
  execute-disconnects s (inr down) =
      disconnect_unless-down (look services s).0 (look services s).1 (
        inr (
          (flags-connected (bool_or_false services (test_connection services.database s).0)
            (services.websocket_is_connected s) s).1
          ∙ down))

-- ===== src/Start.antt =====
-- src/modules/core/start/Lifecycle.service.ts, src/modules/core/cron and
-- src/modules/core/infra/database/connection.ts; lines of log are left out.
pub mod Laws
mod Tests
use node_ddd_boilerplate_typ.Base.{Bool, List, [], false, if◌then◌else◌, true, ℕ, ◌&&◌, ◌∷◌}
use node_ddd_boilerplate_typ.Effects.{Call, Result, ok, pure, throw, ◌>>=◌, ◌>>◌}
use node_ddd_boilerplate_typ.Events.Server.{disconnect_all_sockets}

-- The database library's connection. Reading `isInitialized` may throw.
pub record Connection (S : Type 0) : Type 0 where
  pub is_initialized : S → Result Bool
  pub synchronize : Call S (Unit {0})
  pub initialize : Call S (Unit {0})
  pub destroy : Call S (Unit {0})

-- The job of the scheduler's library.
pub record CronRegistry (S : Type 0) : Type 0 where
  pub start_job : Call S (Unit {0})
  pub stop_job : Call S (Unit {0})

-- `try { call } catch (error) { log(error) }`
abbrev pub attempt_result : {S A : Type 0} → Result A × S → Result (Unit {0}) × S
attempt_result (r, t) = (ok tt, t)

abbrev pub attempt : {S A : Type 0} → Call S A → Call S (Unit {0})
attempt m s = attempt_result (m s)

-- Calls one after the other, up to the first that throws.
abbrev pub in_turn : {S : Type 0} → List (Call S (Unit {0})) → Call S (Unit {0})
in_turn [] s = (ok tt, s)
in_turn (m ∷ ms) s = let rest = in_turn ms in (m >> rest) s

module _ {S : Type 0} (connection : Connection S) where
  abbrev pub true_or_false : Result Bool → Result Bool
  true_or_false (ok b) = ok b
  true_or_false (throw e) = ok false

  -- `testConnection`
  unfoldable pub test_connection : Call S Bool
  test_connection s = (true_or_false (connection.is_initialized s), s)

  -- `syncConnection`
  unfoldable pub sync_connection : Call S (Unit {0})
  sync_connection = attempt connection.synchronize

  -- The factory of the connection.
  abbrev pub connect_database : Call S (Unit {0})
  connect_database = do
    is_initialized ← test_connection
    elim is_initialized [ true ↦ pure tt | false ↦ connection.initialize ]

-- What the task looks at.
pub record Services (S : Type 0) : Type 0 where
  pub database : Connection S
  pub datalake_is_connected : S → Bool
  pub cache_is_connected : S → Bool
  -- `webSocketClient.isConnected()`, which throws where there is no socket.
  pub websocket_is_connected : S → Result Bool
  pub disconnect_all_sockets : Call S (Unit {0})

-- The four flags of `execute`.
pub record Active : Type 0 where
  pub database_is_active : Bool
  pub datalake_is_active : Bool
  pub cache_is_active : Bool
  pub websocket_is_active : Bool

abbrev pub all_active : Active → Bool
all_active a =
    a.cache_is_active && a.datalake_is_active && a.database_is_active && a.websocket_is_active

module _ {S : Type 0} (services : Services S) where
  -- A second test, after the synchronization.
  abbrev pub resynced : Result Bool → Call S Bool
  resynced (ok true) s = (ok true, s)
  resynced _ s = (do sync_connection services.database; test_connection services.database) s

  abbrev pub bool_or_false : Result Bool → Bool
  bool_or_false (ok b) = b
  bool_or_false (throw e) = false

  -- The flags behind the test of the socket; where that throws, the database is not tested again.
  abbrev pub flags : Bool → Result Bool → S → Active × S
  flags database (throw e) s = (
    record {
      database_is_active = database;
      datalake_is_active = services.datalake_is_connected s;
      cache_is_active = services.cache_is_connected s;
      websocket_is_active = false;
    },
    s,
  )
  flags database (ok websocket) s =
      let (r, t) = resynced (ok database) s in
      (
        record {
          database_is_active = bool_or_false r;
          datalake_is_active = services.datalake_is_connected s;
          cache_is_active = services.cache_is_connected s;
          websocket_is_active = websocket;
        },
        t,
      )

  -- The `try` of `execute`.
  abbrev pub look : S → Active × S
  look s =
      flags (bool_or_false (test_connection services.database s).0)
        (services.websocket_is_connected s) s

  abbrev pub disconnect_unless : Active → Call S (Unit {0})
  disconnect_unless a s = if all_active a then (ok tt, s) else services.disconnect_all_sockets s

  -- `SyncCronTask.execute`
  unfoldable pub execute : Call S (Unit {0})
  execute s = let (a, t) = look s in disconnect_unless a t

  -- `handleCron`
  abbrev pub handle_cron : Call S (Unit {0})
  handle_cron = execute

-- What the application closes.
pub record Closing (S : Type 0) : Type 0 where
  pub registry : CronRegistry S
  pub disconnect_all_sockets : Call S (Unit {0})
  pub disconnect_server : Call S (Unit {0})
  pub close_http : Call S (Unit {0})
  pub destroy_sqs : Call S (Unit {0})
  pub destroy_sns : Call S (Unit {0})
  pub destroy_s3 : Call S (Unit {0})
  pub destroy_cognito : Call S (Unit {0})
  pub cache_is_connected : S → Bool
  pub disconnect_cache : Call S Bool
  pub datalake_is_connected : S → Bool
  pub disconnect_datalake : Call S Bool
  pub connection : Connection S
  -- `process.exit`, and whether the environment is that of the tests.
  pub exit : ℕ → Call S (Unit {0})
  pub is_test_env : Bool

module _ {S : Type 0} (c : Closing S) where
  -- `onModuleDestroy`
  unfoldable pub on_module_destroy : Call S (Unit {0})
  on_module_destroy = attempt (
      in_turn (
        c.registry.stop_job ∷ c.disconnect_all_sockets ∷ c.disconnect_server ∷ c.close_http
        ∷ c.destroy_sqs ∷ c.destroy_sns ∷ c.destroy_s3 ∷ c.destroy_cognito ∷ []))

  abbrev pub attempt_if : {A : Type 0} → Bool → Call S A → Call S (Unit {0})
  attempt_if test m s = if test then attempt m s else (ok tt, s)

  abbrev pub close_cache : Call S (Unit {0})
  close_cache s = attempt_if (c.cache_is_connected s) c.disconnect_cache s

  abbrev pub close_datalake : Call S (Unit {0})
  close_datalake s = attempt_if (c.datalake_is_connected s) c.disconnect_datalake s

  -- `beforeApplicationShutdown`
  unfoldable pub before_application_shutdown : Call S (Unit {0})
  before_application_shutdown = do close_cache; close_datalake; attempt c.connection.destroy

  -- `onApplicationShutdown`
  abbrev pub on_application_shutdown : Call S (Unit {0})
  on_application_shutdown s = if c.is_test_env then (ok tt, s) else c.exit 0 s

-- ===== src/Start/Tests.antt =====
-- The theorems on start and shutdown with services that note what is asked of them.
use node_ddd_boilerplate_typ.Start
use node_ddd_boilerplate_typ.Base.{[], false, inl, refl, true, ◌∷◌, ◌≡◌}
use node_ddd_boilerplate_typ.Effects.{Call, ok, throw}
use node_ddd_boilerplate_typ.Events.Example.{Trace, note}
use node_ddd_boilerplate_typ.Exceptions.{Error, plain, with_message}
use node_ddd_boilerplate_typ.Start.{
  Closing, Connection, Services, before_application_shutdown, execute, on_module_destroy,
}
use node_ddd_boilerplate_typ.Start.Laws.{execute-disconnects, shutdown_returns}

abbrev failure : Error
failure = record { info = with_message "closed"; origin = plain }

abbrev refuse : {A : Type 0} → Call Trace A
refuse s = (throw failure, s)

abbrev database : Connection Trace
database = record {
  is_initialized = λ s. throw failure;
  synchronize = refuse;
  initialize = note tt "initialize";
  destroy = refuse;
}

abbrev closing : Closing Trace
closing = record {
  registry = record { start_job = note tt "start"; stop_job = note tt "stop" };
  disconnect_all_sockets = refuse;
  disconnect_server = refuse;
  close_http = refuse;
  destroy_sqs = refuse;
  destroy_sns = refuse;
  destroy_s3 = refuse;
  destroy_cognito = refuse;
  cache_is_connected = λ s. true;
  disconnect_cache = refuse;
  datalake_is_connected = λ s. true;
  disconnect_datalake = refuse;
  connection = database;
  exit = λ n. note tt "exit";
  is_test_env = false;
}

shutdown_returns_example :
    ((on_module_destroy closing []).0 ≡ ok tt)
    × ((before_application_shutdown closing []).0 ≡ ok tt)
shutdown_returns_example = shutdown_returns closing []

abbrev broken : Services Trace
broken = record {
  database = database;
  datalake_is_connected = λ s. false;
  cache_is_connected = λ s. true;
  websocket_is_connected = λ s. throw failure;
  disconnect_all_sockets = note tt "disconnect";
}

execute-disconnects_example : Start.execute broken [] ≡ (ok tt, "disconnect" ∷ [])
execute-disconnects_example = execute-disconnects broken [] (inl refl)

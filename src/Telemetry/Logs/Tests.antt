-- ===== src/Telemetry/Logs/Tests.antt =====
-- A logger of batches of two, at work.
use blocks_genesis_py.Prelude.{List, [], ◌∷◌, ◌++◌, none, some, length, ◌≡◌, refl, arith}
use blocks_genesis_py.Telemetry.Logs.{
  Logged, ended, document, Event, logs, stops, works, run, new_logger,
}
use blocks_genesis_py.Telemetry.Logs.Conserved.{logged, run-logged}
use blocks_genesis_py.Telemetry.Logs.Stopped.{stop_ends}

abbrev start_up : Logged
start_up = record {
  log_record = record { level = "INFO"; message = "started"; name = "app"; trace_context = none };
  context = none;
  activity = record { trace_id = "t"; span_id = "s" };
  now = "2026-01-01T00:00:00";
}

abbrev one_turn : List Event
one_turn = works none ∷ works none ∷ works none ∷ []

abbrev two_logs : List Event
two_logs = logs start_up ∷ logs start_up ∷ logs start_up ∷ one_turn ++ one_turn

two_stored : length (run 2 two_logs new_logger).collection ≡ 2
unfolding run
two_stored = refl

miscellaneous_tenant :
    document start_up
    ≡ some (record {
      timestamp = "2026-01-01T00:00:00";
      level = "INFO";
      message = "started";
      tenant_id = "miscellaneous";
      logger_name = "app";
      trace_id = "t";
      span_id = "s";
    })
unfolding document
miscellaneous_tenant = refl

run-logged_example :
    let s = run 2 two_logs new_logger in (s.collection ++ s.batch) ++ s.queue ≡ logged two_logs
run-logged_example = run-logged 2 two_logs (refl, (refl, (refl, (refl, (refl, (refl, tt))))))

stop_ends_example :
    let t = run 2 (stops ∷ one_turn) (run 2 two_logs new_logger) in
    (t.position ≡ ended) × ((run 2 two_logs t).collection ≡ t.collection)
stop_ends_example = stop_ends 2 one_turn two_logs (run 2 two_logs new_logger) (omega arith)

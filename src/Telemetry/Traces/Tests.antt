-- ===== src/Telemetry/Traces/Tests.antt =====
-- An exporter with a queue of two.
use blocks_genesis_py.Prelude.{◌+◌, Bool, true, false, List, [], ◌∷◌, ◌++◌, none, ◌≡◌, refl, arith}
use blocks_genesis_py.Prelude.Dict.{get, insert}
use blocks_genesis_py.Prelude.Text.{drop, starts_with}
use blocks_genesis_py.Telemetry.Traces.Document.{Span, hex, entry_of}
use blocks_genesis_py.Telemetry.Traces.{
  Entry, done, Event, exports, puts, stops, flushes, works, drains, run, new_exporter,
}
use blocks_genesis_py.Telemetry.Traces.Moves.{count}
use blocks_genesis_py.Telemetry.Traces.Conserved.{IsCounted, run-new_exporter-IsCounted}
use blocks_genesis_py.Telemetry.Traces.Drained.{flush_remaining_complete}

abbrev request : Span
request = record {
  name = "GET /";
  kind = "SpanKind.SERVER";
  trace_id = 171;
  span_id = 18;
  parent = none;
  start_time = 5;
  end_time = 9;
  attributes = ("http.method", "GET") ∷ ("baggage.TenantId", "T") ∷ [];
  status = "StatusCode.UNSET";
  status_description = none;
}

span_of_tenant : (entry_of "svc" request).0 ≡ "T"
unfolding entry_of get insert drop starts_with
span_of_tenant = refl

hex_padded : hex 4 171 ≡ "00ab"
unfolding hex
hex_padded = refl

abbrev all_taken : Entry → Bool
all_taken e = true

-- Three spans for a queue of two: the export fails, and two are kept.
abbrev three_exported : List Event
three_exported = exports (request ∷ request ∷ request ∷ []) ∷ puts ∷ puts ∷ puts ∷ []

queue_full : (run "svc" 2 10 three_exported new_exporter).results ≡ false ∷ []
unfolding run
queue_full = refl

-- The worker is stopped before it takes any of them.
abbrev stopped : List Event
stopped =
    exports (request ∷ [])
    ∷ puts
    ∷ stops
    ∷ works all_taken
    ∷ works all_taken
    ∷ works all_taken
    ∷ works all_taken
    ∷ works all_taken
    ∷ works all_taken
    ∷ exports (request ∷ [])
    ∷ puts
    ∷ []

abbrev three_turns : List Event
three_turns =
    drains all_taken
    ∷ drains all_taken
    ∷ drains all_taken
    ∷ drains all_taken
    ∷ drains all_taken
    ∷ []

run-new_exporter-IsCounted_example :
    IsCounted all_taken (run "svc" 2 10 three_exported new_exporter)
run-new_exporter-IsCounted_example = run-new_exporter-IsCounted "svc" 2 10 all_taken three_exported

flush_remaining_complete_example :
    let t = run "svc" 2 10 (stopped ++ flushes ∷ three_turns) new_exporter in
    (t.flusher.position ≡ done)
    × (t.shared.queue ≡ [])
    × (t.worker.buffer ≡ [])
    × (t.flusher.buffer ≡ [])
    × (count all_taken t.shared.database + count all_taken t.shared.refused
        ≡ count all_taken t.shared.accepted)
unfolding run
flush_remaining_complete_example =
    flush_remaining_complete "svc" 2 10 all_taken stopped three_turns refl refl tt (omega arith)

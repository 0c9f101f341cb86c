-- ===== src/Telemetry/Traces.antt =====
-- The exporter of traces: `MongoDBTraceExporter` of blocks_genesis/_lmt/mongo_trace_exporter.py. Three
-- threads share the bounded queue: the one that exports, the worker's, and one that flushes what remains
-- (`force_flush`, `shutdown`). Each runs from one of its looks at the queue to the next as one event.
pub mod Document
pub mod Moves
pub mod Conserved
pub mod Bounded
pub mod Drained
mod Tests
use blocks_genesis_py.Prelude.{
  ℕ, zero, suc, ◌+◌, String, Bool, true, false, List, [], ◌∷◌, ◌++◌, Option, none, some, ◌&&◌, not,
  leb, ltb, nat_eq, length, filter, map, is_nil, if◌then◌else◌,
}
use blocks_genesis_py.Prelude.Dict.{Dict, get, insert}
use blocks_genesis_py.Telemetry.Traces.Document.{Span, SpanDocument, entry_of}

-- A document with the tenant whose collection it goes to.
abbrev pub Entry : Type 0
Entry = String × SpanDocument

abbrev pub Buffer : Type 0
Buffer = Dict (List SpanDocument)

or_empty : Option (List SpanDocument) → List SpanDocument
or_empty none = []
or_empty (some docs) = docs

-- `buffer_by_tenant.setdefault(tenant_id, []).append(doc)`
unfoldable pub buffered : Entry → Buffer → Buffer
unfolding or_empty
buffered (tenant_id, doc) buffer =
    insert buffer tenant_id (or_empty (get buffer tenant_id) ++ doc ∷ [])

-- What a buffer holds, and how much.
unfoldable pub entries : Buffer → List Entry
entries [] = []
entries ((tenant_id, docs) ∷ buffer) = map (λ doc. (tenant_id, doc)) docs ++ entries buffer

abbrev pub size : Buffer → ℕ
size [] = 0
size ((tenant_id, docs) ∷ buffer) = length docs + size buffer

-- What the threads share. `insert_many` is unordered, so what it refuses is any of the documents; the
-- last two fields record what was put into the queue and what the database has refused.
pub record Shared : Type 0 where
  pub queue : List Entry
  pub is_stopped : Bool
  pub database : List Entry
  pub refused : List Entry
  pub accepted : List Entry

-- Where a thread stands that takes from the queue: the worker at the loop's test, at its wait, while
-- it fills its buffer and before its flush; then, as the other thread, at the test of
-- `_flush_remaining`, at its `get_nowait` and before its flush.
pub data Position : Type 0 where
  at_test : Position
  at_get : Position
  filling : Position
  at_flush : Position
  draining : Position
  taking : Position
  at_last_flush : Position
  done : Position

pub record Taker : Type 0 where
  pub position : Position
  pub buffer : Buffer

-- `_flush_to_mongo`, of a buffer that may be empty.
flushed : (Entry → Bool) → Buffer → Shared → Shared
flushed takes buffer s = record s {
  database = s.database ++ filter takes (entries buffer);
  refused = s.refused ++ filter (λ e. not (takes e)) (entries buffer);
}

-- The next of the queue, if any, goes to the buffer.
taken : List Entry → Position → Position → Taker → Shared → Taker × Shared
taken [] next else_next t s = (record t { position = else_next }, s)
taken (entry ∷ queue) next else_next t s =
    (record { position = next; buffer = buffered entry t.buffer }, record s { queue = queue })

module _ (batch_size : ℕ) where
  -- One step of `_run`, and of `_flush_remaining` from `draining` on.
  pub turn : Position → (Entry → Bool) → Taker → Shared → Taker × Shared
  unfolding taken flushed
  turn at_test takes t s = (record t { position = if s.is_stopped then draining else at_get }, s)
  turn at_get takes t s = taken s.queue filling at_flush t s
  turn filling takes t s =
      if ltb (size t.buffer) batch_size
      then taken s.queue filling at_flush t s
      else (record t { position = at_flush }, s)
  turn at_flush takes t s = (record { position = at_test; buffer = [] }, flushed takes t.buffer s)
  turn draining takes t s =
      (record t { position = if is_nil s.queue then at_last_flush else taking }, s)
  turn taking takes t s = taken s.queue draining at_last_flush t s
  turn at_last_flush takes t s = (record { position = done; buffer = [] }, flushed takes t.buffer s)
  turn done takes t s = (t, s)

pub record Exporter : Type 0 where
  pub shared : Shared
  pub worker : Taker
  pub flusher : Taker
  -- the spans that the call of `export` has not put yet, and what the calls have returned
  pub exporting : Option (List Span)
  pub results : List Bool

pub data Event : Type 0 where
  exports : List Span → Event
  puts : Event
  stops : Event
  -- the flush of what remains is started
  flushes : Event
  works : (takes : Entry → Bool) → Event
  drains : (takes : Entry → Bool) → Event

module _ (service_name : String) (queue_size batch_size : ℕ) where
  -- A queue of no size is unbounded.
  is_full : List Entry → Bool
  is_full queue = not (nat_eq queue_size 0) && leb queue_size (length queue)

  queued : Entry → Shared → Shared
  queued e s = record s { queue = s.queue ++ e ∷ []; accepted = s.accepted ++ e ∷ [] }

  -- One turn of the loop of `export`; a full queue raises, and what was put stays.
  put : Option (List Span) → Exporter → Exporter
  unfolding is_full queued
  put none s = s
  put (some []) s = record s { exporting = none; results = s.results ++ true ∷ [] }
  put (some (span ∷ spans)) s =
      if is_full s.shared.queue
      then record s { exporting = none; results = s.results ++ false ∷ [] }
      else record s {
        exporting = some spans;
        shared = queued (entry_of service_name span) s.shared;
      }

  started : Option (List Span) → List Span → Exporter → Exporter
  started none spans s = record s { exporting = some spans }
  started (some _) spans s = s

  draining_from : Position → Exporter → Exporter
  draining_from done s = record s { flusher = record { position = draining; buffer = [] } }
  draining_from _ s = s

  unfoldable pub step : Event → Exporter → Exporter
  unfolding turn put started draining_from
  step (exports spans) s = started s.exporting spans s
  step puts s = put s.exporting s
  step stops s = record s { shared = record s.shared { is_stopped = true } }
  step flushes s = draining_from s.flusher.position s
  step (works takes) s =
      let (worker, shared) = turn batch_size s.worker.position takes s.worker s.shared in
      record s { worker = worker; shared = shared }
  step (drains takes) s =
      let (flusher, shared) = turn batch_size s.flusher.position takes s.flusher s.shared in
      record s { flusher = flusher; shared = shared }

  unfoldable pub run : List Event → Exporter → Exporter
  unfolding step
  run [] s = s
  run (e ∷ es) s = run es (step e s)

abbrev pub new_exporter : Exporter
new_exporter = record {
  shared = record { queue = []; is_stopped = false; database = []; refused = []; accepted = [] };
  worker = record { position = at_test; buffer = [] };
  flusher = record { position = done; buffer = [] };
  exporting = none;
  results = [];
}

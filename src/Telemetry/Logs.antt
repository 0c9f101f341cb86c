-- ===== src/Telemetry/Logs.antt =====
-- The exporter of logs: `MongoBatchLogger` and `TraceContextFilter` of
-- blocks_genesis/_lmt/mongo_log_exporter.py. The worker's thread runs from one of its reads of what
-- other threads change to the next as one event; the queue is unbounded.
pub mod Conserved
pub mod Held
pub mod Stopped
mod Tests
use blocks_genesis_py.Prelude.{
  ℕ, zero, suc, String, Bool, true, false, List, [], ◌∷◌, ◌++◌, Option, none, some, ◌&&◌, ◌||◌, not,
  leb, length, is_nil, if◌then◌else◌,
}
use blocks_genesis_py.Prelude.Text.{is_empty, or_text}
use blocks_genesis_py.Context.Record.{BlocksContext}

-- What the filter adds to a record.
pub record TraceContext : Type 0 where
  pub tenant_id : String
  pub trace_id : String
  pub span_id : String

pub record LogRecord : Type 0 where
  pub level : String
  pub message : String
  pub name : String
  -- none on a record that has not passed the filter
  pub trace_context : Option TraceContext

-- The current activity's identifiers.
pub record Activity : Type 0 where
  pub trace_id : String
  pub span_id : String

pub record LogDocument : Type 0 where
  pub timestamp : String
  pub level : String
  pub message : String
  pub tenant_id : String
  pub logger_name : String
  pub trace_id : String
  pub span_id : String

tenant_of : Option BlocksContext → String
tenant_of none = "miscellaneous"
tenant_of (some c) = c.tenant_id

-- `TraceContextFilter.filter`
unfoldable pub filtered : Option BlocksContext → Activity → LogRecord → LogRecord
unfolding tenant_of
filtered context activity r = record r {
  trace_context = some (record {
    tenant_id = tenant_of context;
    trace_id = activity.trace_id;
    span_id = activity.span_id;
  });
}

-- The document of a record; none is the AttributeError of a record that has not passed the filter,
-- which `MongoHandler.emit` takes.
unfoldable pub document_of :
    String → Activity → LogRecord → Option TraceContext → Option LogDocument
document_of now activity r none = none
document_of now activity r (some t) = some (record {
  timestamp = now;
  level = r.level;
  message = r.message;
  tenant_id = or_text t.tenant_id "miscellaneous";
  logger_name = r.name;
  trace_id = or_text t.trace_id activity.trace_id;
  span_id = or_text t.span_id activity.span_id;
})

-- Where the worker's thread stands: at the loop's test, in the wait for a document, at the test of the
-- batch, or at its end.
pub data Position : Type 0 where
  at_test : Position
  at_get : Position
  at_flush : Position
  ended : Position

pub record BatchLogger : Type 0 where
  pub queue : List LogDocument
  pub batch : List LogDocument
  pub is_stopped : Bool
  pub position : Position
  -- the collection, in the order of its inserts
  pub collection : List LogDocument

-- The first `k` of a list.
unfoldable pub take {ℓ} : {A : Type ℓ} → ℕ → List A → List A
take zero xs = []
take (suc k) [] = []
take (suc k) (x ∷ xs) = x ∷ take k xs

-- What `insert_many` writes of a batch: all of it, or the first few before it raises.
unfoldable pub inserted : Option ℕ → List LogDocument → List LogDocument
unfolding take
inserted none batch = batch
inserted (some k) batch = take k batch

flushed : Option ℕ → BatchLogger → BatchLogger
unfolding inserted
flushed outcome s = record s { collection = s.collection ++ inserted outcome s.batch; batch = [] }

-- Out of the loop: what is left of the batch is flushed.
shut : Option ℕ → BatchLogger → BatchLogger
unfolding flushed
shut outcome s =
    let f = flushed outcome s in record (if is_nil s.batch then s else f) { position = ended }

-- `queue.get(timeout=…)`: an empty queue is waited for until the time is out.
got : List LogDocument → BatchLogger → BatchLogger
got [] s = record s { position = at_flush }
got (doc ∷ queue) s = record s { queue = queue; batch = s.batch ++ doc ∷ []; position = at_flush }

queued : Option LogDocument → BatchLogger → BatchLogger
queued none s = s
queued (some doc) s = record s { queue = s.queue ++ doc ∷ [] }

-- A record that is logged, with what is read meanwhile.
pub record Logged : Type 0 where
  pub log_record : LogRecord
  pub context : Option BlocksContext
  pub activity : Activity
  pub now : String

-- The document of a record that passes the filter and is enqueued.
unfoldable pub document : Logged → Option LogDocument
unfolding document_of filtered
document l =
    let r = filtered l.context l.activity l.log_record in
    document_of l.now l.activity r r.trace_context

-- `MongoHandler.handle`: the filter, then `enqueue`.
handled : Logged → BatchLogger → BatchLogger
unfolding queued document
handled l s = queued (document l) s

pub data Event : Type 0 where
  logs : Logged → Event
  stops : Event
  -- the worker's next step, with what becomes of an insert
  works : (outcome : Option ℕ) → Event

module _ (batch_size : ℕ) where
  is_due : BatchLogger → Bool
  is_due s = not (is_nil s.batch) && (leb batch_size (length s.batch) || s.is_stopped)

  -- One step of `_background_worker`.
  worked : Position → Option ℕ → BatchLogger → BatchLogger
  unfolding shut got is_due flushed
  worked at_test outcome s = if s.is_stopped then shut outcome s else record s { position = at_get }
  worked at_get outcome s = got s.queue s
  worked at_flush outcome s =
      let f = flushed outcome s in record (if is_due s then f else s) { position = at_test }
  worked ended outcome s = s

  unfoldable pub step : Event → BatchLogger → BatchLogger
  unfolding worked handled
  step (logs l) s = handled l s
  step stops s = record s { is_stopped = true }
  step (works outcome) s = worked s.position outcome s

  unfoldable pub run : List Event → BatchLogger → BatchLogger
  unfolding step
  run [] s = s
  run (e ∷ es) s = run es (step e s)

abbrev pub new_logger : BatchLogger
new_logger = record {
  queue = [];
  batch = [];
  is_stopped = false;
  position = at_test;
  collection = [];
}

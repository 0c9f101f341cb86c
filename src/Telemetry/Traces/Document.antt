-- ===== src/Telemetry/Traces/Document.antt =====
-- The document of a span: `_build_document` and `_extract_baggage_from_span` of
-- blocks_genesis/_lmt/mongo_trace_exporter.py. Attributes are texts here; times are in nanoseconds, as
-- the span has them, where the document has datetimes and milliseconds.
pub mod Split
use blocks_genesis_py.Prelude.{
  ℕ, zero, suc, ◌/◌, ◌%◌, ◌-◌, String, Bool, not, Option, none, some, [], ◌∷◌, leb, if◌then◌else◌,
}
use blocks_genesis_py.Prelude.Int.{ℤ, pos, negsuc}
use blocks_genesis_py.Prelude.Dict.{Dict, get, insert, keep_keys}
use blocks_genesis_py.Prelude.Text.{starts_with, drop, concat, or_text}

pub record Span : Type 0 where
  pub name : String
  pub kind : String
  pub trace_id : ℕ
  pub span_id : ℕ
  pub parent : Option ℕ
  pub start_time : ℕ
  pub end_time : ℕ
  pub attributes : Dict String
  pub status : String
  pub status_description : Option String

pub record SpanDocument : Type 0 where
  pub timestamp : ℕ
  pub trace_id : String
  pub span_id : String
  pub parent_span_id : String
  pub parent_id : String
  pub operation_name : String
  pub kind : String
  pub start_time : ℕ
  pub end_time : ℕ
  pub duration : ℤ
  pub attributes : Dict String
  pub baggage : Dict String
  pub status : String
  pub status_description : Option String
  pub service_name : String
  pub tenant_id : String

-- One hexadecimal digit.
digit : String → ℕ → String
digit String.[] n = ""
digit (String.◌∷◌ c s) zero = String.◌∷◌ c String.[]
digit (String.◌∷◌ c s) (suc n) = digit s n

-- `format(n, "0<w>x")`, for a number of at most `w` digits.
unfoldable pub hex : ℕ → ℕ → String
unfolding digit
hex zero n = ""
hex (suc w) n = concat (hex w (n / 16)) (digit "0123456789abcdef" (n % 16))

abbrev pub is_baggage : String → Bool
is_baggage key = starts_with key "baggage."

baggage_from : Dict String → Dict String → Dict String
baggage_from items [] = items
baggage_from items ((key, value) ∷ attributes) =
    baggage_from (if is_baggage key then insert items (drop 8 key) value else items) attributes

-- `_extract_baggage_from_span`
unfoldable pub extract_baggage_from_span : Span → Dict String
unfolding baggage_from
extract_baggage_from_span span = baggage_from [] span.attributes

parent_span_id : Option ℕ → String
parent_span_id none = "0000000000000000"
parent_span_id (some parent) = hex 16 parent

parent_id : ℕ → Option ℕ → String
parent_id trace_id none = ""
parent_id trace_id (some parent) =
    concat "00-" (concat (hex 32 trace_id) (concat "-" (concat (hex 16 parent) "-01")))

-- `_build_document`
unfoldable pub build_document : String → Span → Dict String → String → SpanDocument
unfolding parent_span_id parent_id
build_document service_name span baggage_items tenant_id = record {
  timestamp = span.end_time;
  trace_id = hex 32 span.trace_id;
  span_id = hex 16 span.span_id;
  parent_span_id = parent_span_id span.parent;
  parent_id = parent_id span.trace_id span.parent;
  operation_name = span.name;
  kind = span.kind;
  start_time = span.start_time;
  end_time = span.end_time;
  duration =
      if leb span.start_time span.end_time
      then pos (span.end_time - span.start_time)
      else negsuc (span.start_time - span.end_time - 1);
  attributes = keep_keys (λ key. not (is_baggage key)) span.attributes;
  baggage = baggage_items;
  status = span.status;
  status_description = span.status_description;
  service_name = service_name;
  tenant_id = tenant_id;
}

text_or_empty : Option String → String
text_or_empty none = ""
text_or_empty (some text) = text

-- `baggage_items.get("TenantId") or "miscellaneous"`
tenant_of : Dict String → String
unfolding text_or_empty
tenant_of baggage_items = or_text (text_or_empty (get baggage_items "TenantId")) "miscellaneous"

-- What `export` puts into the queue for a span.
unfoldable pub entry_of : String → Span → String × SpanDocument
unfolding tenant_of build_document extract_baggage_from_span
entry_of service_name span =
    let baggage_items = extract_baggage_from_span span in
    let tenant_id = tenant_of baggage_items in
    (tenant_id, build_document service_name span baggage_items tenant_id)

-- ===== src/Messaging/Tests.antt =====
-- Messages with a grant, through both workers.
use blocks_genesis_py.Prelude.{
  ℕ, ◌+◌, ◌*◌, ◌≤◌, String, Bool, true, false, [], ◌∷◌, Option, none, some, ◌≡◌, refl, arith,
}
use blocks_genesis_py.Prelude.Dict.{Dict, get}
use blocks_genesis_py.Json.{Value, bool, str, obj, no_fields, field}
use blocks_genesis_py.Context.Fields.{Pydantic}
use blocks_genesis_py.Delegation.Flow.{Flow, Env}
use blocks_genesis_py.Delegation.Tokens.{new_provider}
use blocks_genesis_py.Messaging.Consumer.{Handler, coroutine_function}
use blocks_genesis_py.Messaging.Context.{Surroundings, Worker, baggage_reads}
use blocks_genesis_py.Messaging.Rabbit.{IncomingMessage}
use blocks_genesis_py.Messaging.Rabbit
use blocks_genesis_py.Messaging.Rabbit.Settled.{Settled, process_message-Settled}
use blocks_genesis_py.Messaging.Azure.{ReceivedMessage, Receiver, message_handler}
use blocks_genesis_py.Messaging.Azure.Settled.{message_handler_clears}
use blocks_genesis_py.Messaging.Azure.Renewal.{
  Renewal, max_processing_time, renewals_from, renewals_from_terminates,
}

abbrev handler : Value → Flow → Bool × Flow
handler v flow = (true, flow)

abbrev handlers : Dict Handler
handlers = ("created", coroutine_function handler) ∷ []

abbrev event : Value
event = obj (field "body" (str "{}") (field "type" (str "created") no_fields))

abbrev env : Env
env = record {
  text_of = λ v. "";
  json_dumps = λ v. "";
  json_loads = λ s. some event;
  cache_up = true;
}

abbrev as_bool : Value → Option Bool
as_bool (bool b) = some b
as_bool _ = none

abbrev pydantic : Pydantic
pydantic = record { as_bool = as_bool; as_datetime = λ v. none; as_bool-bool = λ b. refl }

abbrev surroundings : Surroundings
surroundings = record { env = env; pydantic = pydantic; handlers = handlers }

abbrev flow : Flow
flow = record { context = none; auth_claims = none; grant = none; cache = [] }

abbrev worker : Worker
worker = record { flow = flow; provider = new_provider; trace = [] }

abbrev grant_id : String
grant_id = "dg_0123456789abcdef0123456789abcdef0123456789abcdef0123456789abcdef"

abbrev incoming : IncomingMessage
incoming = record {
  security_context = "";
  baggage = "{}";
  delegation_grant = some grant_id;
  body = some "event";
  ack_works = true;
}

abbrev message : ReceivedMessage
message = record {
  message_id = "m1";
  security_context = "";
  baggage = "{}";
  delegation_grant = some grant_id;
  body = some "event";
  complete_works = true;
  abandon_works = true;
  abandon_again_works = false;
}

abbrev receiver : Receiver
receiver = record { worker = worker; active_message_renewals = [] }

process_message-Settled_example :
    Settled surroundings incoming [] (Rabbit.process_message surroundings incoming worker)
unfolding baggage_reads
process_message-Settled_example =
    process_message-Settled surroundings incoming "event" worker refl refl refl

message_handler_clears_example :
    ((message_handler surroundings message receiver).1.worker.flow.context ≡ none)
    × ((message_handler surroundings message receiver).1.worker.flow.grant ≡ none)
    × (get (message_handler surroundings message receiver).1.active_message_renewals "m1" ≡ none)
message_handler_clears_example = message_handler_clears surroundings message receiver

-- The default times: renewals every 270 seconds, for at most 300 minutes.
abbrev renewal : Renewal
renewal = record {
  message_lock_renewal_interval_seconds = 270;
  max_message_processing_time_in_minutes = 300;
  cancelled = λ k. false;
  processing_time = λ k. (k + 1) * 270;
  renews = λ k. true;
}

renewals_from_terminates_example :
    (n : ℕ) × (renewals_from renewal 67 0 0 ≡ some n) × (n * 270 ≤ max_processing_time renewal)
unfolding max_processing_time
renewals_from_terminates_example =
    renewals_from_terminates renewal 67 (λ i e. omega arith) (omega arith)

-- ===== src/Messaging/Client/Tests.antt =====
-- A message that a user's request sends, with a grant, up to its worker.
use blocks_genesis_py.Prelude.{String, Bool, true, [], ◌∷◌, Option, none, some, ◌≡◌, refl}
use blocks_genesis_py.Prelude.Result.{ok}
use blocks_genesis_py.Prelude.Dict.{get, insert}
use blocks_genesis_py.Prelude.Text.{len, all_chars}
use blocks_genesis_py.Json.{Value, bool, str, obj, no_fields}
use blocks_genesis_py.Context.Record.{BlocksContext, empty_context}
use blocks_genesis_py.Context.Transport.RoundTrip.{sanitized}
use blocks_genesis_py.Delegation.Flow.{Flow, version_material}
use blocks_genesis_py.Delegation.Signature.{is_lower_hex, IsTokenHex, new_grant_id}
use blocks_genesis_py.Delegation.GrantStore.{create, write}
use blocks_genesis_py.Delegation.GrantFactory.{create_for_send, create_for_user}
use blocks_genesis_py.Delegation.Tokens.{new_provider}
use blocks_genesis_py.Messaging.Context.{Surroundings, Worker}
use blocks_genesis_py.Messaging.Rabbit.{incoming, started}
use blocks_genesis_py.Messaging.Client.{
  ConsumerMessage, Tracing, Outgoing, send_message, headers_of, body_of,
}
use blocks_genesis_py.Messaging.Client.Hop.{wire, restored-sent}

abbrev digits : String
digits = "0123456789abcdef0123456789abcdef0123456789abcdef0123456789abcdef"

token_hex : IsTokenHex digits
unfolding len all_chars is_lower_hex
token_hex = record { digits = refl; lower_hex = refl }

abbrev sender : BlocksContext
sender = record empty_context { tenant_id = "T"; user_id = "u"; is_authenticated = true }

abbrev as_bool : Value → Option Bool
as_bool (bool b) = some b
as_bool _ = none

abbrev surroundings : Surroundings
surroundings = record {
  env = record {
    text_of = λ v. "1";
    json_dumps = λ v. "json";
    json_loads = λ s. some (wire sender);
    cache_up = true;
  };
  pydantic = record { as_bool = as_bool; as_datetime = λ v. none; as_bool-bool = λ b. refl };
  handlers = [];
}

abbrev flow : Flow
flow = record {
  context = some sender;
  auth_claims = some (("token_version", str "1") ∷ ("security_stamp", str "s") ∷ []);
  grant = none;
  cache = [];
}

abbrev tracing : Tracing
tracing = record { trace_id = "t"; span_id = "s"; root_attributes = obj no_fields }

abbrev message : ConsumerMessage
message = record {
  consumer_name = "queue";
  payload = obj no_fields;
  payload_type = "created";
  context = none;
  routing_key = "";
  delegation_ttl_seconds = none;
}

abbrev grant_id : String
grant_id = "dg_0123456789abcdef0123456789abcdef0123456789abcdef0123456789abcdef"

abbrev sent : Outgoing
sent = record {
  headers = headers_of surroundings.env tracing message (some sender) (some grant_id);
  body = body_of surroundings.env tracing message;
}

abbrev worker : Worker
worker = record {
  flow = record { context = none; auth_claims = none; grant = none; cache = [] };
  provider = new_provider;
  trace = [];
}

restored-sent_example :
    ((started surroundings (incoming sent.headers none true) worker).flow.context
      ≡ some (sanitized sender))
    × ((create_for_send surroundings.env none digits flow).0
        ≡ ok (started surroundings (incoming sent.headers none true) worker).flow.grant)
unfolding send_message create_for_send create_for_user version_material create write new_grant_id
    get insert
restored-sent_example =
    restored-sent surroundings tracing message true true digits flow sender sent none worker refl
      refl refl token_hex tt refl refl

-- ===== src/Messaging/Client.antt =====
-- What a message is sent with: `_send_message_async` of
-- blocks_genesis/_message/rabbit_mq/rabbit_message_client.py, and `_send_to_azure_bus_async` of
-- blocks_genesis/_message/azure/azure_message_client.py up to its senders.
pub mod Hop
mod Tests
use blocks_genesis_py.Prelude.{
  String, Bool, true, false, List, [], ◌∷◌, Option, none, some, if◌then◌else◌,
}
use blocks_genesis_py.Prelude.Int.{ℤ}
use blocks_genesis_py.Prelude.Dict.{Dict, get, insert}
use blocks_genesis_py.Prelude.Result.{Result, ok, err}
use blocks_genesis_py.Prelude.Text.{is_empty, or_text}
use blocks_genesis_py.Json.{Value, str, obj, Fields, no_fields, field}
use blocks_genesis_py.Context.Record.{BlocksContext}
use blocks_genesis_py.Context.Transport.{create_sanitized_for_transport}
use blocks_genesis_py.Delegation.Flow.{Flow, Env}
use blocks_genesis_py.Delegation.GrantStore.{StoreError}
use blocks_genesis_py.Delegation.GrantFactory.{create_for_send}

-- The payload is one that can be written as JSON.
pub record ConsumerMessage : Type 0 where
  pub consumer_name : String
  pub payload : Value
  pub payload_type : String
  pub context : Option String
  pub routing_key : String
  pub delegation_ttl_seconds : Option ℤ

-- The trace of the sending activity.
pub record Tracing : Type 0 where
  pub trace_id : String
  pub span_id : String
  pub root_attributes : Value

-- A message as it is given to the broker.
pub record Outgoing : Type 0 where
  pub headers : Dict String
  pub body : String

pub data SendError : Type 0 where
  attribute_error : SendError
  grant_error : StoreError → SendError
  publish_error : SendError

-- A dictionary as a JSON object.
unfoldable pub object_fields : Dict Value → Fields
object_fields [] = no_fields
object_fields ((k, v) ∷ d) = field k v (object_fields d)

given_text : Option String → String
given_text none = ""
given_text (some s) = s

tenant_of : Option BlocksContext → String
tenant_of none = ""
tenant_of (some c) = c.tenant_id

-- `if delegation_grant: headers[…] = delegation_grant`
with_grant : Option String → Dict String → Dict String
with_grant none headers = headers
with_grant (some grant) headers =
    if is_empty grant then headers else insert headers "DelegationGrant" grant

module _ (env : Env) (tracing : Tracing) (m : ConsumerMessage) where
  unfoldable pub headers_of : Option BlocksContext → Option String → Dict String
  unfolding given_text tenant_of with_grant object_fields
  headers_of context grant = with_grant grant (
      ("TenantId", tenant_of context)
      ∷ ("TraceId", tracing.trace_id)
      ∷ ("SpanId", tracing.span_id)
      ∷ (
        "SecurityContext",
        or_text (given_text m.context)
            (env.json_dumps (obj (object_fields (create_sanitized_for_transport context)))),
      )
      ∷ ("Baggage", env.json_dumps tracing.root_attributes)
      ∷ [])

  -- The event, as the text of its JSON.
  unfoldable pub body_of : String
  body_of = env.json_dumps (
      obj (
        field "body" (str (env.json_dumps m.payload))
          (field "type" (str m.payload_type) no_fields)))

  -- Once the grant is made: the broker may refuse the message.
  published :
      Bool
      → Option BlocksContext
      → Result StoreError (Option String) × Flow
      → Result SendError Outgoing × Flow
  unfolding headers_of body_of
  published works context (err e, flow) = (err (grant_error e), flow)
  published works context (ok grant, flow) =
      if works
      then (ok (record { headers = headers_of context grant; body = body_of }), flow)
      else (err publish_error, flow)

  -- `_send_message_async` of RabbitMQ, with the random digits of a new grant.
  unfoldable pub send_message : Bool → String → Flow → Result SendError Outgoing × Flow
  unfolding published
  send_message works random flow =
      published works flow.context (create_for_send env m.delegation_ttl_seconds random flow)

  sent_from : Bool → String → Flow → Option BlocksContext → Result SendError Outgoing × Flow
  unfolding published
  sent_from works random flow none = (err attribute_error, flow)
  sent_from works random flow (some c) =
      published works (some c) (create_for_send env m.delegation_ttl_seconds random flow)

  -- `_send_to_azure_bus_async`: the tenant of the context is read before anything else.
  unfoldable pub send_to_azure_bus : Bool → String → Flow → Result SendError Outgoing × Flow
  unfolding sent_from
  send_to_azure_bus works random flow = sent_from works random flow flow.context

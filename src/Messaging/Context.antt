-- ===== src/Messaging/Context.antt =====
-- What the two message workers share: the context and the grant of a message, its dispatch, and the
-- release of its grant. rabbit_mq/rabbit_message_worker.py and azure/azure_message_worker.py of
-- blocks_genesis/_message.
pub mod Ordered
pub mod Restored
use blocks_genesis_py.Prelude.{
  String, Bool, true, false, ◌||◌, List, [], ◌∷◌, Option, none, some, any, ◌==◌, if◌then◌else◌,
}
use blocks_genesis_py.Prelude.Dict.{Dict, get}
use blocks_genesis_py.Prelude.Result.{Result, ok, err}
use blocks_genesis_py.Prelude.Text.{is_empty, contains}
use blocks_genesis_py.Json.{Value, null, str, obj, arr, fields, items, is_truthy}
use blocks_genesis_py.Context.Record.{BlocksContext, empty_context}
use blocks_genesis_py.Context.Fields.{Pydantic}
use blocks_genesis_py.Context.Transport.{from_transport}
use blocks_genesis_py.Delegation.Flow.{Flow, Env, set_grant, clear_grant}
use blocks_genesis_py.Delegation.GrantStore.{delete}
use blocks_genesis_py.Delegation.Tokens.{Provider, invalidate}
use blocks_genesis_py.Messaging.Consumer.{EventMessage, Handler, process_message, event_of}

-- What is taken from outside: JSON and the grants' cache, pydantic, and the registered handlers.
pub record Surroundings : Type 0 where
  pub env : Env
  pub pydantic : Pydantic
  pub handlers : Dict Handler

-- What a worker does that others see: the handler of an event has run, with or without success, the
-- broker is told how a message is settled, or a grant is deleted.
pub data Action : Type 0 where
  handled : (event_type body : String) (success : Bool) → Action
  acked completed abandoned : Action
  released : (grant : String) → Action

-- The ambient values of the task that handles a message, the cached tokens, and the actions so far,
-- the latest first.
pub record Worker : Type 0 where
  pub flow : Flow
  pub provider : Provider
  pub trace : List Action

abbrev pub act : Action → Worker → Worker
act a w = record w { trace = a ∷ w.trace }

-- The names under which a context's fields travel, as they are sent and as they are declared.
transport_names : List String
transport_names =
    "TenantId" ∷ "tenant_id" ∷ "Roles" ∷ "roles" ∷ "UserId" ∷ "user_id" ∷ "IsAuthenticated"
    ∷ "is_authenticated" ∷ "RequestUri" ∷ "request_uri" ∷ "OrganizationId" ∷ "organization_id"
    ∷ "ExpireOn" ∷ "expire_on" ∷ "Email" ∷ "email" ∷ "Permissions" ∷ "permissions" ∷ "UserName"
    ∷ "user_name" ∷ "PhoneNumber" ∷ "phone_number" ∷ "DisplayName" ∷ "display_name" ∷ "OauthToken"
    ∷ "oauth_token" ∷ "OriginalTenantId" ∷ "original_tenant_id" ∷ "ApplicationDomain"
    ∷ "application_domain" ∷ "Impersonated" ∷ "impersonated" ∷ "ClientId" ∷ "client_id"
    ∷ "SessionId" ∷ "session_id" ∷ []

is_text : String → Value → Bool
is_text name (str s) = name == s
is_text name v = false

-- `name in payload`, of a text and of a list.
names_in : Value → String → Bool
unfolding is_text
names_in (str s) name = contains s name
names_in (arr vs) name = any (is_text name) (items vs)
names_in v name = false

-- A list or a text with none of the names is read as a context of the defaults.
defaulted : Bool → Option (Option BlocksContext)
defaulted true = none
defaulted false = some (some empty_context)

-- `from_transport(payload)` of any JSON value, `none` where it raises.
carried : Pydantic → Value → Option (Option BlocksContext)
unfolding names_in defaulted transport_names
carried p (obj fs) = elim (from_transport p (some (fields fs))) [ ok c ↦ some c | err e ↦ none ]
carried p (str s) =
    if is_empty s then some none else defaulted (any (names_in (str s)) transport_names)
carried p (arr vs) =
    if is_truthy (arr vs) then defaulted (any (names_in (arr vs)) transport_names) else some none
carried p v = if is_truthy v then none else some none

with_context : Option (Option BlocksContext) → Flow → Flow
with_context none flow = flow
with_context (some c) flow = record flow { context = c }

loaded_context : Surroundings → Option Value → Flow → Flow
unfolding with_context carried
loaded_context s none flow = flow
loaded_context s (some v) flow = with_context (carried s.pydantic v) flow

-- The context of a message's header: without one, or where it cannot be read, the context stays.
unfoldable pub restore_security_context : Surroundings → String → Flow → Flow
unfolding loaded_context
restore_security_context s raw flow =
    if is_empty raw then flow else loaded_context s (s.env.json_loads raw) flow

-- `grant or None`
unfoldable pub given_grant : Option String → Option String
given_grant none = none
given_grant (some g) = if is_empty g then none else some g

unfoldable pub restored : Surroundings → String → Option String → Worker → Worker
unfolding restore_security_context
restored s raw grant w = record w { flow = set_grant grant (restore_security_context s raw w.flow) }

-- Reading the baggage raises where it is JSON but no object.
unfoldable pub baggage_reads : Option Value → Bool
baggage_reads none = true
baggage_reads (some (obj fs)) = true
baggage_reads (some v) = false

dispatched : Surroundings → Option EventMessage → Worker → Bool × Worker
dispatched s none w = (false, w)
dispatched s (some event) w =
    let (success, flow) =
      process_message s.handlers event.type (s.env.json_loads event.body) w.flow in
    (success, act (handled event.type event.body success) (record w { flow = flow }))

-- The message's body is read as an event and given to its handler: whether nothing was raised.
unfoldable pub run_handler : Surroundings → String → Worker → Bool × Worker
unfolding dispatched event_of
run_handler s body w = dispatched s (event_of (s.env.json_loads body)) w

-- `_release_delegation_grant`, the same in both workers.
unfoldable pub release_delegation_grant : Surroundings → Option String → Worker → Worker
unfolding invalidate
release_delegation_grant s none w = w
release_delegation_grant s (some grant) w =
    act (released grant)
      (record w { provider = invalidate grant w.provider; flow = delete s.env grant w.flow })

unfoldable pub cleared : Worker → Worker
cleared w = record w { flow = clear_grant (record w.flow { context = none }) }

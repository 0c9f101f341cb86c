-- ===== src/Messaging/Consumer.antt =====
-- The registry of event handlers and the dispatch of one message to its handler: event_registry.py,
-- event_message.py and consumer.py of blocks_genesis/_message.
pub mod Registered
use blocks_genesis_py.Prelude.{
  String, Bool, true, false, List, [], ◌∷◌, Option, none, some, is_some, if◌then◌else◌,
}
use blocks_genesis_py.Prelude.Dict.{Dict, get, insert}
use blocks_genesis_py.Prelude.Result.{Result, ok, err}
use blocks_genesis_py.Prelude.Text.{is_empty}
use blocks_genesis_py.Json.{Value, str, obj, fields}
use blocks_genesis_py.Delegation.Flow.{Flow}

pub record EventMessage : Type 0 where
  pub body : String
  pub type : String

-- What is registered for an event type: a coroutine function, with what it does to the flow and
-- whether it returns; a class; an object with `handle` that cannot be called; anything else that
-- cannot be called.
pub data Handler : Type 0 where
  coroutine_function : (Value → Flow → Bool × Flow) → Handler
  handler_class : Handler
  handler_object : Handler
  not_a_handler : Handler

pub data RegistryError : Type 0 where
  value_error : RegistryError
  key_error : RegistryError

-- `EventRegistry.register`
unfoldable pub register : String → Handler → Dict Handler → Result RegistryError (Dict Handler)
register event_type handler handlers =
    if is_empty event_type
    then err value_error
    else if is_some (get handlers event_type)
    then err key_error
    else ok (insert handlers event_type handler)

-- `EventRegistry.resolve`
unfoldable pub resolve : String → Dict Handler → Result RegistryError Handler
resolve event_type handlers = elim (get handlers event_type) [
  | none ↦ err value_error
  | some handler ↦ ok handler
]

-- `Consumer.process_message` of a body as `json.loads` reads it: whether it returns, and the flow
-- after. A class can be called, so it is called with the body like a function, and what that gives
-- cannot be awaited; an object that is not callable fails where it is called to make an instance.
awaited : Handler → Option Value → Flow → Bool × Flow
awaited (coroutine_function f) (some v) flow = f v flow
awaited handler body flow = (false, flow)

given_to : Result RegistryError Handler → Option Value → Flow → Bool × Flow
unfolding awaited
given_to (err e) body flow = (false, flow)
given_to (ok handler) body flow = awaited handler body flow

unfoldable pub process_message : Dict Handler → String → Option Value → Flow → Bool × Flow
unfolding given_to resolve
process_message handlers event_type body flow = given_to (resolve event_type handlers) body flow

text_at : Option Value → Option String
text_at none = none
text_at (some (str s)) = some s
text_at (some v) = none

-- `EventMessage(**json.loads(body))`, `none` where it raises.
unfoldable pub event_of : Option Value → Option EventMessage
unfolding text_at
event_of (some (obj fs)) = elim (text_at (get (fields fs) "body")) [
  | none ↦ none
  | some body ↦ elim (text_at (get (fields fs) "type")) [
    | none ↦ none
    | some type ↦ some (record { body = body; type = type })
  ]
]
event_of v = none

-- ===== src/Messaging/Rabbit/Service.antt =====
-- `RabbitMqService` of blocks_genesis/_message/rabbit_mq/rabbit_mq_service.py, and the start and the stop of
-- `RabbitMessageWorker` of rabbit_message_worker.py. The broker is a parameter, which tells of each operation
-- whether it succeeds after those that were done.
pub mod Scripted
pub mod Ordered
pub mod Reached
mod Tests
use blocks_genesis_py.Prelude.{
  ℕ, String, Bool, true, false, not, ◌&&◌, ◌||◌, List, [], ◌∷◌, ◌++◌, Option, none, some,
  if◌then◌else◌, is_nil,
}
use blocks_genesis_py.Prelude.Text.{is_empty}
use blocks_genesis_py.Messaging.Configuration.{
  ConsumerSubscription, RabbitMqConfiguration, MessageConfiguration,
}
use blocks_genesis_py.Messaging.Topology.{and_then, for_each}

-- What is asked of the broker.
pub data Operation : Type 0 where
  connect : Operation
  open_channel : Operation
  declare_queue : (name : String) (durable : Bool) → Operation
  declare_exchange : (name exchange_type : String) (durable : Bool) → Operation
  bind : (queue_name exchange_name routing_key : String) → Operation
  set_qos : (prefetch_count : ℕ) → Operation
  consume : (queue_name : String) → Operation
  close_channel : Operation
  close_connection : Operation

-- Whether an operation succeeds, whether the channel and the connection are closed, after the operations
-- that succeeded, in their order; and whether a text is an exchange type.
pub record Broker : Type 0 where
  pub works : List Operation → Operation → Bool
  pub channel_is_closed : List Operation → Bool
  pub connection_is_closed : List Operation → Bool
  pub is_exchange_type : String → Bool

-- The worker and its service: whether there is a service, a connection, a channel, and whether the stop
-- event is set.
pub record Session : Type 0 where
  pub has_service : Bool
  pub has_connection : Bool
  pub has_channel : Bool
  pub is_stopped : Bool
  pub performed : List Operation

pub data Outcome : Type 0 where
  raised : Outcome
  returned : Outcome
  awaits_stop : Outcome

-- `initialize`
unfoldable pub initialize : MessageConfiguration → Session → Bool × Session
initialize m s = elim m.connection [
  | none ↦ (false, s)
  | some connection ↦
      if is_empty connection
      then (false, s)
      else (true, record s { has_service = true; has_connection = false; has_channel = false })
]

pub subscriptions_of : Option RabbitMqConfiguration → List ConsumerSubscription
subscriptions_of none = []
subscriptions_of (some c) = c.consumer_subscriptions

with_channel : (Session → Bool × Session) → Session → Bool × Session
with_channel next s = if s.has_channel then next s else (false, s)

connected : Session → Bool × Session
connected s = (true, record s { has_connection = true })

channel_opened : Session → Bool × Session
channel_opened s = (true, record s { has_channel = true })

module _ (broker : Broker) where
  unfoldable pub perform : Operation → Session → Bool × Session
  perform op s =
      if broker.works s.performed op
      then (true, record s { performed = s.performed ++ op ∷ [] })
      else (false, s)

  -- `create_connection_async`
  unfoldable pub create_connection : Session → Bool × Session
  unfolding perform and_then connected channel_opened
  create_connection s =
      and_then (perform connect s)
        (λ t. and_then (connected t) (λ u. and_then (perform open_channel u) channel_opened))

  exchange_declared : ConsumerSubscription → Session → Bool × Session
  unfolding perform and_then
  exchange_declared c s =
      if is_empty c.exchange_name
      then (true, s)
      else if broker.is_exchange_type c.exchange_type
      then and_then (perform (declare_exchange c.exchange_name c.exchange_type c.durable) s)
          (perform (bind c.queue_name c.exchange_name c.routing_key))
      else (false, s)

  subscription_declared : ConsumerSubscription → Session → Bool × Session
  unfolding perform and_then exchange_declared
  subscription_declared c s =
      and_then (perform (declare_queue c.queue_name c.durable) s)
        (λ t. and_then (exchange_declared c t) (perform (set_qos c.prefetch_count)))

  -- `initialize_subscriptions_async`
  unfoldable pub initialize_subscriptions : Option RabbitMqConfiguration → Session → Bool × Session
  unfolding with_channel subscription_declared for_each subscriptions_of
  initialize_subscriptions config =
      with_channel (for_each subscription_declared (subscriptions_of config))

  consuming : ConsumerSubscription → Session → Bool × Session
  unfolding perform and_then
  consuming c s =
      and_then (perform (declare_queue c.queue_name c.durable) s)
        (λ t. and_then (perform (set_qos c.prefetch_count) t) (perform (consume c.queue_name)))

  -- `_start_consuming`
  unfoldable pub start_consuming : List ConsumerSubscription → Session → Bool × Session
  unfolding consuming for_each
  start_consuming = for_each consuming

  consume_configured : Option RabbitMqConfiguration → Session → Bool × Session
  unfolding start_consuming subscriptions_of
  consume_configured config s =
      if is_nil (subscriptions_of config)
      then (true, s)
      else start_consuming (subscriptions_of config) s

  -- `run`, up to where it waits for the stop event.
  started : Option RabbitMqConfiguration → Session → Bool × Session
  unfolding and_then create_connection initialize_subscriptions with_channel consume_configured
  started config s =
      if s.has_service
      then and_then (create_connection s) (λ t.
        and_then (initialize_subscriptions config t) (with_channel (consume_configured config)))
      else (false, s)

  finished : Option RabbitMqConfiguration → Bool × Session → Outcome × Session
  unfolding subscriptions_of
  finished config (false, s) = (raised, s)
  finished config (true, s) =
      (if is_nil (subscriptions_of config) || s.is_stopped then returned else awaits_stop, s)

  -- `run`
  unfoldable pub run : MessageConfiguration → Session → Outcome × Session
  unfolding started finished
  run m s = finished m.rabbit_mq_configuration (started m.rabbit_mq_configuration s)

  channel_closed : Session → Session
  unfolding perform
  channel_closed s =
      if s.has_channel && not (broker.channel_is_closed s.performed)
      then (perform close_channel s).1
      else s

  connection_closed : Session → Session
  unfolding perform
  connection_closed s =
      if s.has_connection && not (broker.connection_is_closed s.performed)
      then (perform close_connection s).1
      else s

  -- `close`
  unfoldable pub close : Session → Session
  unfolding channel_closed connection_closed
  close s = connection_closed (channel_closed s)

  -- `stop`
  unfoldable pub stop : Session → Session
  unfolding close
  stop s = let t : Session = record s { is_stopped = true } in if s.has_service then close t else t

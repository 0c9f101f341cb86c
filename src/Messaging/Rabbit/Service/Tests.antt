-- ===== src/Messaging/Rabbit/Service/Tests.antt =====
-- A broker that refuses nothing.
use blocks_genesis_py.Prelude.{
  true, false, List, [], ◌∷◌, ◌++◌, none, some, ◌==◌, ◌≡◌, refl, ap, Elem, inl, inr, ◌⊎◌, is_nil,
}
use blocks_genesis_py.Messaging.Configuration.{
  ConsumerSubscription, MessageConfiguration, bind_to_queue_via_exchange,
}
use blocks_genesis_py.Messaging.Topology.{and_then, for_each}
use blocks_genesis_py.Messaging.Rabbit.Service.{
  Operation, connect, open_channel, declare_queue, declare_exchange, bind, set_qos, consume,
  close_channel, close_connection, Broker, Session, awaits_stop, subscriptions_of, perform,
  create_connection, initialize_subscriptions, start_consuming, run, stop, close,
}
use blocks_genesis_py.Messaging.Rabbit.Service.Scripted.{script}
use blocks_genesis_py.Messaging.Rabbit.Service.Ordered.{run-declares_first}
use blocks_genesis_py.Messaging.Rabbit.Service.Reached.{run-awaits}
use blocks_genesis_py.Prelude.Text.{is_empty}

abbrev willing : Broker
willing = record {
  works = λ done op. true;
  channel_is_closed = λ done. false;
  connection_is_closed = λ done. false;
  is_exchange_type = λ t. t == "fanout";
}

abbrev orders : ConsumerSubscription
orders = record {
  queue_name = "orders";
  exchange_name = "shop";
  prefetch_count = 5;
  exchange_type = "fanout";
  routing_key = "";
  should_bypass_authorization = false;
  durable = true;
  parallel_processing = false;
}

abbrev shop : MessageConfiguration
shop = record {
  connection = some "amqp://shop";
  service_name = none;
  queues = [];
  topics = [];
  consumer_subscriptions = none;
  azure_service_bus_configuration = none;
  rabbit_mq_configuration =
      some record { consumer_subscriptions = orders ∷ []; message_ttl_seconds = 0 };
}

abbrev ready : Session
ready = record {
  has_service = true;
  has_connection = false;
  has_channel = false;
  is_stopped = false;
  performed = [];
}

orders_bound : bind_to_queue_via_exchange "orders" "shop" 5 false ≡ orders
unfolding bind_to_queue_via_exchange
orders_bound = refl

abbrev declared : List Operation
declared =
    connect
    ∷ open_channel
    ∷ declare_queue "orders" true
    ∷ declare_exchange "shop" "fanout" true
    ∷ bind "orders" "shop" ""
    ∷ set_qos 5
    ∷ declare_queue "orders" true
    ∷ set_qos 5
    ∷ []

consumes : run willing shop ready ≡ (
  awaits_stop,
  record ready {
    has_connection = true;
    has_channel = true;
    performed = declared ++ consume "orders" ∷ [];
  },
)
unfolding run create_connection initialize_subscriptions start_consuming perform and_then for_each
consumes = refl

one_subscription : Elem orders (subscriptions_of shop.rabbit_mq_configuration)
unfolding subscriptions_of
one_subscription = inl refl

run-declares_first_example : Elem (bind "orders" "shop" "") declared
run-declares_first_example =
    run-declares_first willing shop ready declared [] "orders" refl
      (ap (λ r. r.1.performed) consumes) orders one_subscription (bind "orders" "shop" "")
      (inr (inr (inl refl)))

fine :
    (c : ConsumerSubscription)
    → Elem c (subscriptions_of shop.rabbit_mq_configuration)
    → (is_empty c.exchange_name ≡ true) ⊎ (willing.is_exchange_type c.exchange_type ≡ true)
unfolding subscriptions_of
fine c (inl e) = inr (ap (λ x. x.exchange_type == "fanout") e)
fine c (inr i) = absurd i

some_subscription : is_nil (subscriptions_of shop.rabbit_mq_configuration) ≡ false
unfolding subscriptions_of
some_subscription = refl

run-awaits_example :
    let r = run willing shop ready in
    (r.0 ≡ awaits_stop)
    × (r.1.performed ≡ [] ++ script (subscriptions_of shop.rabbit_mq_configuration))
run-awaits_example =
    run-awaits willing (λ done op. refl) shop ready fine refl refl some_subscription

-- A worker that stops closes its channel and its connection.
stops :
    (stop willing (run willing shop ready).1).performed
    ≡ declared ++ consume "orders" ∷ close_channel ∷ close_connection ∷ []
unfolding stop close perform run create_connection initialize_subscriptions start_consuming and_then
    for_each
stops = refl

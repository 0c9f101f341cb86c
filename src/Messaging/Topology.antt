-- ===== src/Messaging/Topology.antt =====
-- The broker's queues, topics and subscriptions: `ConfigAzureServiceBus` of
-- blocks_genesis/_message/azure/config_azure_service_bus.py. The client of the service's administration is a
-- parameter, with the service's state; each of its calls tells whether it returned, and did not raise.
pub mod Provisioned
mod Tests
use blocks_genesis_py.Prelude.{
  ℕ, String, Bool, true, false, List, [], ◌∷◌, Option, none, some, if◌then◌else◌,
}
use blocks_genesis_py.Messaging.Configuration.{
  AzureServiceBusConfiguration, MessageConfiguration, get_subscription_name,
}

-- What the service has by name.
pub data Entity : Type 0 where
  queue : (queue_name : String) → Entity
  topic : (topic_name : String) → Entity
  subscription : (topic_name subscription_name : String) → Entity

-- The settings that the `create_` methods are given; an argument that is left out is nothing.
pub record Settings : Type 0 where
  pub max_size_in_megabytes : Option ℕ
  pub max_delivery_count : Option ℕ
  pub default_message_time_to_live : ℕ
  pub lock_duration : Option ℕ

-- `get_queue`, `get_topic` and `get_subscription`; `create_queue`, `create_topic` and
-- `create_subscription`.
pub record Administration (S : Type 0) : Type 1 where
  pub from_connection_string : Option String → Bool
  pub get_entity : Entity → S → Bool × S
  pub create_entity : Entity → Settings → S → Bool × S

-- One call after another; what raises ends both.
unfoldable pub and_then : {S : Type 0} → Bool × S → (S → Bool × S) → Bool × S
and_then (true, s) next = next s
and_then (false, s) next = (false, s)

unfoldable pub for_each : {A S : Type 0} → (A → S → Bool × S) → List A → S → Bool × S
unfolding and_then
for_each step [] s = (true, s)
for_each step (a ∷ rest) s = and_then (step a s) (for_each step rest)

module _ {S : Type 0} (admin : Administration S) where
  unfoldable created_unless : Entity → Settings → Bool × S → Bool × S
  created_unless e settings (true, s) = (true, s)
  created_unless e settings (false, s) = admin.create_entity e settings s

  -- The `_check_` method of the entity, and its creation where the check fails.
  unfoldable pub ensured : Entity → Settings → S → Bool × S
  unfolding created_unless
  ensured e settings s = created_unless e settings (admin.get_entity e s)

  module _ (c : AzureServiceBusConfiguration) where
    ensure_queue : String → S → Bool × S
    unfolding ensured
    ensure_queue queue_name = ensured (queue queue_name) (record {
      max_size_in_megabytes = some c.queue_max_size_in_megabytes;
      max_delivery_count = some c.queue_max_delivery_count;
      default_message_time_to_live = c.queue_default_message_time_to_live;
      lock_duration = some 300;
    })

    ensure_topic : String → S → Bool × S
    unfolding ensured
    ensure_topic topic_name = ensured (topic topic_name) (record {
      max_size_in_megabytes = some c.topic_max_size_in_megabytes;
      max_delivery_count = none;
      default_message_time_to_live = c.topic_default_message_time_to_live;
      lock_duration = none;
    })

    -- `_create_subscription`
    create_subscription : String → String → S → Bool × S
    unfolding ensured
    create_subscription subscription_name topic_name =
        ensured (subscription topic_name subscription_name) (record {
          max_size_in_megabytes = none;
          max_delivery_count = some c.topic_subscription_max_delivery_count;
          default_message_time_to_live = c.topic_subscription_default_message_time_to_live;
          lock_duration = some 300;
        })

    -- `_create_queues`
    unfoldable pub create_queues : S → Bool × S
    unfolding ensure_queue for_each
    create_queues = for_each ensure_queue c.queues

    topic_and_subscription : (String → String) → String → S → Bool × S
    unfolding ensure_topic create_subscription and_then
    topic_and_subscription subscription_name topic_name s =
        and_then (ensure_topic topic_name s)
          (create_subscription (subscription_name topic_name) topic_name)

    -- `_create_topics_and_subscriptions`
    unfoldable pub create_topics_and_subscriptions : (String → String) → S → Bool × S
    unfolding topic_and_subscription for_each
    create_topics_and_subscriptions subscription_name =
        for_each (topic_and_subscription subscription_name) c.topics

  provisioned : (String → String) → Option AzureServiceBusConfiguration → S → Bool × S
  unfolding create_queues create_topics_and_subscriptions and_then
  provisioned subscription_name none s = (false, s)
  provisioned subscription_name (some c) s =
      and_then (create_queues c s) (create_topics_and_subscriptions c subscription_name)

  -- `configure_queue_and_topic`
  unfoldable pub configure_queue_and_topic : MessageConfiguration → S → Bool × S
  unfolding provisioned get_subscription_name
  configure_queue_and_topic c s =
      if admin.from_connection_string c.connection
      then provisioned (get_subscription_name c) c.azure_service_bus_configuration s
      else (false, s)

-- ===== src/Messaging/Configuration.antt =====
-- The configuration of messages, blocks_genesis/_message/message_configuration.py. Times are in seconds; the
-- scheme that `urlparse` reads from a connection string is a parameter, nothing where it raises.
pub mod Chosen
use blocks_genesis_py.Prelude.{
  ℕ, String, Bool, true, false, not, ◌&&◌, ◌||◌, List, [], ◌++◌, map, Option, none, some, ◌==◌,
  if◌then◌else◌, filter,
}
use blocks_genesis_py.Prelude.Text.{is_empty, is_blank, lower, concat}

pub record AzureServiceBusConfiguration : Type 0 where
  pub queues : List String
  pub topics : List String
  pub queue_max_size_in_megabytes : ℕ
  pub queue_max_delivery_count : ℕ
  pub queue_default_message_time_to_live : ℕ
  pub topic_max_size_in_megabytes : ℕ
  pub topic_default_message_time_to_live : ℕ
  pub topic_subscription_max_delivery_count : ℕ
  pub topic_subscription_default_message_time_to_live : ℕ

-- Seven days.
abbrev week : ℕ
week = 604800

abbrev pub azure_service_bus_configuration_of :
    List String → List String → AzureServiceBusConfiguration
azure_service_bus_configuration_of queues topics = record {
  queues = queues;
  topics = topics;
  queue_max_size_in_megabytes = 1024;
  queue_max_delivery_count = 2;
  queue_default_message_time_to_live = week;
  topic_max_size_in_megabytes = 1024;
  topic_default_message_time_to_live = week;
  topic_subscription_max_delivery_count = 2;
  topic_subscription_default_message_time_to_live = week;
}

names_of : List String → List String
unfolding lower is_blank
names_of names = map lower (filter (λ q. not (is_empty q) && not (is_blank q)) names)

unfoldable pub set_queues :
    List String → AzureServiceBusConfiguration → AzureServiceBusConfiguration
unfolding names_of
set_queues names c = record c { queues = names_of names }

unfoldable pub set_topics :
    List String → AzureServiceBusConfiguration → AzureServiceBusConfiguration
unfolding names_of
set_topics names c = record c { topics = names_of names }

pub record ConsumerSubscription : Type 0 where
  pub queue_name : String
  pub exchange_name : String
  pub prefetch_count : ℕ
  pub exchange_type : String
  pub routing_key : String
  pub should_bypass_authorization : Bool
  pub durable : Bool
  pub parallel_processing : Bool

unfoldable pub bind_to_queue_via_exchange : String → String → ℕ → Bool → ConsumerSubscription
bind_to_queue_via_exchange queue_name exchange_name prefetch_count parallel_processing = record {
  queue_name = queue_name;
  exchange_name = exchange_name;
  prefetch_count = prefetch_count;
  exchange_type = "fanout";
  routing_key = "";
  should_bypass_authorization = false;
  durable = true;
  parallel_processing = parallel_processing;
}

unfoldable pub bind_to_queue : String → ℕ → ConsumerSubscription
unfolding bind_to_queue_via_exchange
bind_to_queue queue_name prefetch_count =
    bind_to_queue_via_exchange queue_name "" prefetch_count false

pub record RabbitMqConfiguration : Type 0 where
  pub consumer_subscriptions : List ConsumerSubscription
  pub message_ttl_seconds : ℕ

pub record MessageConfiguration : Type 0 where
  pub connection : Option String
  pub service_name : Option String
  pub queues : List String
  pub topics : List String
  pub consumer_subscriptions : Option (List ConsumerSubscription)
  pub azure_service_bus_configuration : Option AzureServiceBusConfiguration
  pub rabbit_mq_configuration : Option RabbitMqConfiguration

-- A value in an f-string.
abbrev printed : Option String → String
printed none = "None"
printed (some s) = s

unfoldable pub get_subscription_name : MessageConfiguration → String → String
get_subscription_name c topic_name = concat topic_name (concat "_sub_" (printed c.service_name))

abbrev or_nil : Option (List ConsumerSubscription) → List ConsumerSubscription
or_nil none = []
or_nil (some subscriptions) = subscriptions

is_amqp : Option String → Bool
unfolding lower
is_amqp none = false
is_amqp (some scheme) = lower scheme == "amqp" || lower scheme == "amqps"

module _ (scheme : String → Option String) where
  -- `_get_provider(connection) == "rabbitmq"`
  unfoldable pub is_rabbitmq : String → Bool
  unfolding is_amqp
  is_rabbitmq connection = is_amqp (scheme connection)

  unfoldable with_rabbitmq : MessageConfiguration → MessageConfiguration
  with_rabbitmq c = record c {
    rabbit_mq_configuration = some record {
      consumer_subscriptions =
          map (λ q. bind_to_queue q 5) c.queues ++ or_nil c.consumer_subscriptions;
      message_ttl_seconds = 0;
    };
  }

  unfoldable with_azure : MessageConfiguration → MessageConfiguration
  with_azure c = record c {
    azure_service_bus_configuration = some (azure_service_bus_configuration_of c.queues c.topics);
  }

  unfoldable provided : Option String → MessageConfiguration → MessageConfiguration
  unfolding is_rabbitmq with_rabbitmq with_azure
  provided none c = c
  provided (some connection) c =
      if is_empty connection
      then c
      else if is_rabbitmq connection
      then with_rabbitmq c
      else with_azure c

  unfoldable resolved :
      Option AzureServiceBusConfiguration
      → Option RabbitMqConfiguration
      → MessageConfiguration
      → MessageConfiguration
  unfolding provided
  resolved (some azure) rabbit c = c
  resolved none (some rabbit) c = c
  resolved none none c = provided c.connection c

  unfoldable pub resolve_provider : MessageConfiguration → MessageConfiguration
  unfolding resolved
  resolve_provider c = resolved c.azure_service_bus_configuration c.rabbit_mq_configuration c

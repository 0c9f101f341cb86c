-- ===== src/Messaging/Topology/Tests.antt =====
-- A service that lists its entities.
use blocks_genesis_py.Prelude.{
  Bool, true, false, ◌&&◌, ◌||◌, List, [], ◌∷◌, none, some, ◌==◌, eq_refl, eq_iff, ◌∙◌, ◌⊎◌, inl,
  inr, Bool-cases, if◌then◌else◌, ◌≡◌, refl, ap, arith,
}
use blocks_genesis_py.Prelude.Text.{lower, is_blank}
use blocks_genesis_py.Messaging.Configuration.{
  MessageConfiguration, AzureServiceBusConfiguration, azure_service_bus_configuration_of,
  get_subscription_name, resolve_provider, is_rabbitmq, bind_to_queue, set_queues,
}
use blocks_genesis_py.Messaging.Topology.{
  Entity, queue, topic, subscription, Settings, Administration, configure_queue_and_topic,
}
use blocks_genesis_py.Messaging.Topology.Provisioned.{
  Promises, Configured, configure_queue_and_topic-Provisions,
}

abbrev same_entity : Entity → Entity → Bool
same_entity (queue a) (queue b) = a == b
same_entity (topic a) (topic b) = a == b
same_entity (subscription a x) (subscription b y) = a == b && x == y
same_entity _ _ = false

abbrev has : Entity → List Entity → Bool
has e [] = false
has e (d ∷ ds) = same_entity e d || has e ds

abbrev toy : Administration (List Entity)
toy = record {
  from_connection_string = λ c. true;
  get_entity = λ e s. (has e s, s);
  create_entity = λ e settings s. if has e s then (false, s) else (true, e ∷ s);
}

same_entity_refl : (e : Entity) → same_entity e e ≡ true
same_entity_refl (queue q) = eq_refl q
same_entity_refl (topic t) = eq_refl t
same_entity_refl (subscription t n) = rw (eq_refl t) (eq_refl n)

same_entity_eq : (d e : Entity) → same_entity d e ≡ true → d ≡ e
same_entity_eq (queue a) (queue b) h = ap queue ((eq_iff a b).0 h)
same_entity_eq (topic a) (topic b) h = ap topic ((eq_iff a b).0 h)
same_entity_eq (subscription a x) (subscription b y) h =
    let p : (a == b) ≡ true = ground arith in
    let q : (x == y) ≡ true = ground arith in
    let u : a ≡ b = (eq_iff a b).0 p in
    let v : x ≡ y = (eq_iff x y).0 q in ap (λ k. subscription k x) u ∙ ap (subscription b) v
same_entity_eq (queue a) (topic b) h = cc
same_entity_eq (queue a) (subscription b y) h = cc
same_entity_eq (topic a) (queue b) h = cc
same_entity_eq (topic a) (subscription b y) h = cc
same_entity_eq (subscription a x) (queue b) h = cc
same_entity_eq (subscription a x) (topic b) h = cc

Has : Entity → List Entity → Type 0
Has e s = has e s ≡ true

toy-Promises : Promises toy Has
unfolding Has
toy-Promises = record {
  found = λ e s h. h;
  made = λ e settings s h. created e settings s h;
  kept_by_get = λ e d s h. h;
  kept_by_create = λ e d settings s h. kept e d settings s h;
  none_by_get = λ e d s h. h;
  only_by_create = λ e d settings s h. only e d settings s h;
}
  where
    created :
        (e : Entity) (settings : Settings) (s : List Entity)
        → (toy.create_entity e settings s).0 ≡ true
        → has e (toy.create_entity e settings s).1 ≡ true
    created e settings s h = ground (arith, same_entity_refl e)

    kept :
        (e d : Entity) (settings : Settings) (s : List Entity)
        → has d s ≡ true
        → has d (toy.create_entity e settings s).1 ≡ true
    kept e d settings s h = ground arith

    only :
        (e d : Entity) (settings : Settings) (s : List Entity)
        → has d (toy.create_entity e settings s).1 ≡ true
        → (has d s ≡ true) ⊎ (d ≡ e)
    only e d settings s h = elim (Bool-cases (has d s)) [
      | inl k ↦ inl k
      | inr k ↦ inr (same_entity_eq d e (ground arith))
    ]

abbrev orders : AzureServiceBusConfiguration
orders = azure_service_bus_configuration_of ("orders" ∷ []) ("news" ∷ [])

abbrev shop : MessageConfiguration
shop = record {
  connection = some "Endpoint=sb://shop";
  service_name = some "shop";
  queues = "orders" ∷ [];
  topics = "news" ∷ [];
  consumer_subscriptions = none;
  azure_service_bus_configuration = some orders;
  rabbit_mq_configuration = none;
}

configured :
    configure_queue_and_topic toy shop (queue "orders" ∷ [])
    ≡ (true, subscription "news" "news_sub_shop" ∷ topic "news" ∷ queue "orders" ∷ [])
unfolding configure_queue_and_topic get_subscription_name
configured = refl

configure_queue_and_topic-Provisions_example :
    let r = configure_queue_and_topic toy shop (queue "orders" ∷ []) in
    ((r.0 ≡ false) ⊎ ((e : Entity) → Configured shop orders e → Has e r.1))
    × ((e : Entity) → Has e (queue "orders" ∷ []) → Has e r.1)
    × ((e : Entity) → Has e r.1 → Has e (queue "orders" ∷ []) ⊎ Configured shop orders e)
configure_queue_and_topic-Provisions_example =
    configure_queue_and_topic-Provisions toy toy-Promises shop orders (queue "orders" ∷ []) refl

abbrev bare : MessageConfiguration
bare = record shop { connection = some "amqps://shop"; azure_service_bus_configuration = none }

-- The scheme is read in any case.
rabbitmq_chosen :
    let r = resolve_provider (λ c. some "AMQPS") bare in
    r.rabbit_mq_configuration
    ≡ some
        record { consumer_subscriptions = bind_to_queue "orders" 5 ∷ []; message_ttl_seconds = 0 }
unfolding resolve_provider is_rabbitmq bind_to_queue lower
rabbitmq_chosen = refl

blank_names_left_out : (set_queues ("Orders" ∷ " " ∷ "" ∷ []) orders).queues ≡ "orders" ∷ []
unfolding set_queues lower is_blank
blank_names_left_out = refl

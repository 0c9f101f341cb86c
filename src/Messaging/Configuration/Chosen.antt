-- ===== src/Messaging/Configuration/Chosen.antt =====
-- Which provider a configuration names.
use blocks_genesis_py.Prelude.{
  String, Bool, true, false, Option, none, some, ◌≡◌, refl, ap, ◌∙◌, not, inl, inr, Bool-cases,
}
use blocks_genesis_py.Prelude.Text.{is_empty}
use blocks_genesis_py.Messaging.Configuration.{
  AzureServiceBusConfiguration, RabbitMqConfiguration, MessageConfiguration, is_rabbitmq, provided,
  resolved, with_rabbitmq, with_azure, resolve_provider,
}

-- Whether Azure and whether RabbitMQ is configured.
abbrev is_some : {A : Type 0} → Option A → Bool
is_some none = false
is_some (some a) = true

module _ (scheme : String → Option String) where
  -- A provider for a connection string: the other one's configuration stays as it is.
  provided-one :
      (c : MessageConfiguration) (connection : String)
      → c.azure_service_bus_configuration ≡ none
      → c.rabbit_mq_configuration ≡ none
      → is_empty connection ≡ false
      → let r = provided scheme (some connection) c in
        (is_some r.rabbit_mq_configuration ≡ is_rabbitmq scheme connection)
        × (is_some r.azure_service_bus_configuration ≡ not (is_rabbitmq scheme connection))
  unfolding provided with_rabbitmq with_azure
  provided-one c connection a r n = elim (Bool-cases (is_rabbitmq scheme connection)) [
    | inl e ↦ (simp (n, e), simp (n, e, a))
    | inr e ↦ (simp (n, e, r), simp (n, e))
  ]

  resolve_provider-provided :
      (c : MessageConfiguration) (connection : String)
      → c.azure_service_bus_configuration ≡ none
      → c.rabbit_mq_configuration ≡ none
      → c.connection ≡ some connection
      → resolve_provider scheme c ≡ provided scheme (some connection) c
  unfolding resolve_provider resolved
  resolve_provider-provided c connection a r e =
      ap (λ x. resolved scheme x c.rabbit_mq_configuration c) a
      ∙ ap (λ x. resolved scheme none x c) r
      ∙ ap (λ k. provided scheme k c) e

  -- A configuration that names no provider and has a connection string gets one: RabbitMQ where the
  -- string's scheme is of AMQP, Azure otherwise.
  pub resolve_provider-one :
      (c : MessageConfiguration) (connection : String)
      → c.azure_service_bus_configuration ≡ none
      → c.rabbit_mq_configuration ≡ none
      → c.connection ≡ some connection
      → is_empty connection ≡ false
      → let r = resolve_provider scheme c in
        (is_some r.rabbit_mq_configuration ≡ is_rabbitmq scheme connection)
        × (is_some r.azure_service_bus_configuration ≡ not (is_rabbitmq scheme connection))
  resolve_provider-one c connection a r e n =
      rw (resolve_provider-provided c connection a r e) (provided-one c connection a r n)

  provided-again :
      (c : MessageConfiguration) (k : Option String)
      → c.azure_service_bus_configuration ≡ none
      → c.rabbit_mq_configuration ≡ none
      → c.connection ≡ k
      → resolve_provider scheme (provided scheme k c) ≡ provided scheme k c
  unfolding provided resolve_provider with_rabbitmq with_azure resolved
  provided-again c none a r k = rw (a, r, k) refl
  provided-again c (some connection) a r k = elim (Bool-cases (is_empty connection)) [
    | inl n ↦ rw n (rw (a, r, k) (rw n refl))
    | inr n ↦ elim (Bool-cases (is_rabbitmq scheme connection)) [
      | inl e ↦ rw (n, e) (rw a refl)
      | inr e ↦ rw (n, e) refl
    ]
  ]

  resolved-again :
      (c : MessageConfiguration) (a : Option AzureServiceBusConfiguration)
      (r : Option RabbitMqConfiguration)
      → c.azure_service_bus_configuration ≡ a
      → c.rabbit_mq_configuration ≡ r
      → resolve_provider scheme (resolved scheme a r c) ≡ resolved scheme a r c
  unfolding resolved resolve_provider
  resolved-again c (some a) r p q = rw p refl
  resolved-again c none (some r) p q = rw (p, q) refl
  resolved-again c none none p q = provided-again c c.connection p q refl

  -- Resolving the provider again changes nothing.
  pub resolve_provider-again :
      (c : MessageConfiguration)
      → resolve_provider scheme (resolve_provider scheme c) ≡ resolve_provider scheme c
  unfolding resolve_provider
  resolve_provider-again c =
      resolved-again c c.azure_service_bus_configuration c.rabbit_mq_configuration refl refl

-- ===== src/Messaging/Rabbit/Service/Reached.antt =====
-- A worker whose broker refuses nothing comes to wait for messages.
use blocks_genesis_py.Prelude.{
  Bool, true, false, List, [], ◌∷◌, Option, if◌then◌else◌, is_nil, Bool-cases, Elem, ◌⊎◌, inl, inr,
  ◌≡◌, ◌≢◌, ◌++◌, ◌∙◌, refl, sym, ap,
}
use blocks_genesis_py.Prelude.Text.{is_empty}
use blocks_genesis_py.Messaging.Configuration.{
  ConsumerSubscription, RabbitMqConfiguration, MessageConfiguration,
}
use blocks_genesis_py.Messaging.Rabbit.Service.Scripted.{script, run-script}
use mathlib.Core.List.{append-nil}
use blocks_genesis_py.Messaging.Topology.{and_then, for_each}
use blocks_genesis_py.Messaging.Rabbit.Service.{
  Operation, connect, open_channel, Broker, Session, raised, awaits_stop, subscriptions_of,
  with_channel, connected, channel_opened, perform, create_connection, exchange_declared,
  subscription_declared, initialize_subscriptions, consuming, start_consuming, consume_configured,
  started, finished, run,
}

awaits-raises : awaits_stop ≢ raised
awaits-raises e = cc e

-- The step returns, and leaves the channel and the stop event as they were.
Passes : Session → Bool × Session → Type 0
Passes s r = (r.0 ≡ true) × (r.1.has_channel ≡ s.has_channel) × (r.1.is_stopped ≡ s.is_stopped)

open_then-Passes :
    (s : Session) (r : Bool × Session) (next : Session → Bool × Session)
    → Passes s r
    → ((t : Session) → t.has_channel ≡ s.has_channel → Passes t (next t))
    → Passes s (and_then r next)
unfolding Passes and_then
open_then-Passes s (true, t) next (_, c, d) n = let (e, f, g) = n t c in (e, f ∙ c, g ∙ d)
open_then-Passes s (false, t) next (e, c, d) n = cc

and_then-Passes :
    (s : Session) (r : Bool × Session) (next : Session → Bool × Session)
    → Passes s r
    → ((t : Session) → Passes t (next t))
    → Passes s (and_then r next)
and_then-Passes s r next p n = open_then-Passes s r next p (λ t e. n t)

with_open-Passes :
    (next : Session → Bool × Session) (s : Session)
    → s.has_channel ≡ true
    → Passes s (next s)
    → Passes s (with_channel next s)
unfolding with_channel
with_open-Passes next s o p = opened s.has_channel o
  where
    opened : (b : Bool) → b ≡ true → Passes s (if b then next s else (false, s))
    opened true e = p
    opened false e = cc

for_each-Passes :
    {A : Type 0} (step : A → Session → Bool × Session) (xs : List A)
    → ((a : A) → Elem a xs → (s : Session) → Passes s (step a s))
    → (s : Session) → Passes s (for_each step xs s)
unfolding for_each Passes
for_each-Passes step [] p s = (refl, refl, refl)
for_each-Passes step (x ∷ xs) p s =
    and_then-Passes s _ _ (p x (inl refl) s) (for_each-Passes step xs (λ a i. p a (inr i)))

module _ (broker : Broker)
    (willing : (done : List Operation) (op : Operation) → broker.works done op ≡ true) where
  perform-Passes : (op : Operation) (s : Session) → Passes s (perform broker op s)
  unfolding perform Passes
  perform-Passes op s = rw (willing s.performed op) (refl, refl, refl)

  consuming-Passes : (c : ConsumerSubscription) (s : Session) → Passes s (consuming broker c s)
  unfolding consuming
  consuming-Passes c s =
      and_then-Passes s _ _ (perform-Passes _ s)
        (λ t. and_then-Passes t _ _ (perform-Passes _ t) (perform-Passes _))

  exchange_declared-Passes :
      (c : ConsumerSubscription)
      → (is_empty c.exchange_name ≡ true) ⊎ (broker.is_exchange_type c.exchange_type ≡ true)
      → (s : Session) → Passes s (exchange_declared broker c s)
  unfolding exchange_declared Passes
  exchange_declared-Passes c (inl e) s = rw e (refl, refl, refl)
  exchange_declared-Passes c (inr e) s = elim (Bool-cases (is_empty c.exchange_name)) [
    | inl n ↦ rw n (refl, refl, refl)
    | inr n ↦ rw (n, e) (and_then-Passes s _ _ (perform-Passes _ s) (perform-Passes _))
  ]

  subscription_declared-Passes :
      (c : ConsumerSubscription)
      → (is_empty c.exchange_name ≡ true) ⊎ (broker.is_exchange_type c.exchange_type ≡ true)
      → (s : Session) → Passes s (subscription_declared broker c s)
  unfolding subscription_declared
  subscription_declared-Passes c e s =
      and_then-Passes s _ _ (perform-Passes _ s)
        (λ t. and_then-Passes t _ _ (exchange_declared-Passes c e t) (perform-Passes _))

  -- The connection is made, and the channel is there.
  create_connection-opens :
      (s : Session)
      → let r = create_connection broker s in
        (r.0 ≡ true) × (r.1.has_channel ≡ true) × (r.1.is_stopped ≡ s.is_stopped)
  unfolding create_connection and_then perform connected channel_opened
  create_connection-opens s =
      rw (willing s.performed connect, willing _ open_channel) (refl, refl, refl)

  consumed-Passes :
      (config : Option RabbitMqConfiguration) (s : Session)
      → Passes s (consume_configured broker config s)
  unfolding consume_configured start_consuming Passes
  consumed-Passes config s = consumed (subscriptions_of config) s
    where
      consumed :
          (cs : List ConsumerSubscription) (s : Session)
          → Passes s (if is_nil cs then (true, s) else start_consuming broker cs s)
      consumed [] s = (refl, refl, refl)
      consumed (c ∷ cs) s =
          for_each-Passes (consuming broker) (c ∷ cs) (λ a i. consuming-Passes a) s

  module _ (config : Option RabbitMqConfiguration)
      (fine : (c : ConsumerSubscription)
        → Elem c (subscriptions_of config)
        → (is_empty c.exchange_name ≡ true)
          ⊎ (broker.is_exchange_type c.exchange_type ≡ true)) where
    subscribed-Passes :
        (t : Session)
        → t.has_channel ≡ true
        → Passes t (
            and_then
              (initialize_subscriptions broker config t)
              (with_channel (consume_configured broker config)))
    unfolding initialize_subscriptions
    subscribed-Passes t o =
        let declared = for_each (subscription_declared broker) (subscriptions_of config) in
        open_then-Passes t (with_channel declared t)
          (with_channel (consume_configured broker config))
          (with_open-Passes declared t o (
            for_each-Passes (subscription_declared broker) (subscriptions_of config)
              (λ c i. subscription_declared-Passes c (fine c i)) t))
          (λ u e.
            with_open-Passes (consume_configured broker config) u (e ∙ o)
              (consumed-Passes config u))

    ends_waiting :
        (r : Bool × Session)
        → r.0 ≡ true
        → r.1.is_stopped ≡ false
        → is_nil (subscriptions_of config) ≡ false
        → (finished broker config r).0 ≡ awaits_stop
    unfolding finished
    ends_waiting (true, t) e f n = rw (n, f) refl
    ends_waiting (false, t) e f n = cc

    started-waits :
        (s : Session)
        → s.has_service ≡ true
        → s.is_stopped ≡ false
        → is_nil (subscriptions_of config) ≡ false
        → (finished broker config (started broker config s)).0 ≡ awaits_stop
    unfolding started Passes
    started-waits s h f n =
        let (e, o, k) = create_connection-opens s in
        guarded s.has_service _ h (connected_then (create_connection broker s) e o (k ∙ f))
      where
        guarded :
            (b : Bool) (r : Bool × Session)
            → b ≡ true
            → (finished broker config r).0 ≡ awaits_stop
            → (finished broker config (if b then r else (false, s))).0 ≡ awaits_stop
        guarded true r e w = w
        guarded false r e w = cc

        connected_then :
            (r : Bool × Session)
            → r.0 ≡ true
            → r.1.has_channel ≡ true
            → r.1.is_stopped ≡ false
            → (finished broker config (
                and_then r (λ t.
                  and_then
                    (initialize_subscriptions broker config t)
                    (with_channel (consume_configured broker config))))).0
              ≡ awaits_stop
        connected_then (true, t) e o k =
            let (x, _, l) = subscribed-Passes t o in ends_waiting _ x (l ∙ k) n
        connected_then (false, t) e o k = cc

  -- Where the broker refuses nothing, every exchange that a subscription names is of a type that there is,
  -- and there is a subscription, an initialized worker that is not told to stop connects, declares and
  -- consumes all that its script says, and comes to wait.
  pub run-awaits :
      (m : MessageConfiguration) (s : Session)
      → ((c : ConsumerSubscription)
          → Elem c (subscriptions_of m.rabbit_mq_configuration)
          → (is_empty c.exchange_name ≡ true) ⊎ (broker.is_exchange_type c.exchange_type ≡ true))
      → s.has_service ≡ true
      → s.is_stopped ≡ false
      → is_nil (subscriptions_of m.rabbit_mq_configuration) ≡ false
      → let r = run broker m s in
        (r.0 ≡ awaits_stop)
        × (r.1.performed ≡ s.performed ++ script (subscriptions_of m.rabbit_mq_configuration))
  unfolding run
  run-awaits m s fine h f n =
      let waits = started-waits m.rabbit_mq_configuration fine s h f n in
      let (done, rest, e, d, whole) = run-script broker m s in
      let all_done = whole (λ q. awaits-raises (sym waits ∙ q)) in
      (
        waits,
        d ∙ ap (λ x. s.performed ++ x) (sym (e ∙ ap (λ x. done ++ x) all_done ∙ append-nil done)),
      )

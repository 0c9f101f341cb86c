-- ===== src/Messaging/Rabbit/Service/Scripted.antt =====
-- In what order the broker is asked.
use mathlib.Core.List.{append_assoc, append-nil}
use blocks_genesis_py.Prelude.{
  Bool, true, false, List, [], ◌∷◌, ◌++◌, Option, if◌then◌else◌, is_nil, Bool-cases, ◌≡◌, ◌≢◌, ◌∙◌,
  refl, sym, ap, inl, inr,
}
use blocks_genesis_py.Prelude.Text.{is_empty}
use blocks_genesis_py.Messaging.Configuration.{
  ConsumerSubscription, RabbitMqConfiguration, MessageConfiguration,
}
use blocks_genesis_py.Messaging.Topology.{and_then, for_each}
use blocks_genesis_py.Messaging.Rabbit.Service.{
  Operation, connect, open_channel, declare_queue, declare_exchange, bind, set_qos, consume, Broker,
  Session, raised, subscriptions_of, with_channel, connected, channel_opened, perform,
  create_connection, exchange_declared, subscription_declared, initialize_subscriptions, consuming,
  start_consuming, consume_configured, started, finished, run,
}

-- `[y for x in xs for y in f(x)]`
abbrev pub flat : {A B : Type 0} → (A → List B) → List A → List B
flat f [] = []
flat f (x ∷ xs) = f x ++ flat f xs

abbrev pub exchange_declarations : ConsumerSubscription → List Operation
exchange_declarations c =
    if is_empty c.exchange_name
    then []
    else (declare_exchange c.exchange_name c.exchange_type c.durable
        ∷ bind c.queue_name c.exchange_name c.routing_key
        ∷ [])

-- What declares a subscription: its queue, and its exchange with the queue bound to it, if it has one.
abbrev pub declarations : ConsumerSubscription → List Operation
declarations c =
    declare_queue c.queue_name c.durable
    ∷ (exchange_declarations c ++ set_qos c.prefetch_count ∷ [])

-- What consumes a subscription's queue.
abbrev pub consumption : ConsumerSubscription → List Operation
consumption c =
    declare_queue c.queue_name c.durable ∷ set_qos c.prefetch_count ∷ consume c.queue_name ∷ []

-- All that a worker asks: everything is declared before anything is consumed.
abbrev pub script : List ConsumerSubscription → List Operation
script cs = connect ∷ open_channel ∷ (flat declarations cs ++ flat consumption cs)

-- After `before`, the operations are done: all of them, or the first ones where the step raises.
Done : List Operation → List Operation → Bool × Session → Type 0
Done ops before (true, s) = s.performed ≡ before ++ ops
Done ops before (false, s) =
    (done rest : List Operation) × (ops ≡ done ++ rest) × (s.performed ≡ before ++ done)

raised-Done :
    (s : Session) (b : Bool) (ops : List Operation) → b ≡ false → Done ops s.performed (b, s)
unfolding Done
raised-Done s true ops e = cc
raised-Done s false ops e = ([], ops, refl, sym (append-nil s.performed))

moved-Done : (s t : Session) → t.performed ≡ s.performed → Done [] s.performed (true, t)
unfolding Done
moved-Done s t e = e ∙ sym (append-nil s.performed)

skipped-Done : (s : Session) → Done [] s.performed (true, s)
skipped-Done s = moved-Done s s refl

after-Done :
    (a b before middle : List Operation) (r : Bool × Session)
    → middle ≡ before ++ a
    → Done b middle r
    → Done (a ++ b) before r
unfolding Done
after-Done a b before middle (true, s) m d = d ∙ ap (λ x. x ++ b) m ∙ append_assoc before a b
after-Done a b before middle (false, s) m (done, rest, e, d) = (
  a ++ done,
  rest,
  ap (λ x. a ++ x) e ∙ sym (append_assoc a done rest),
  d ∙ ap (λ x. x ++ done) m ∙ append_assoc before a done,
)

and_then-Done :
    (a b before : List Operation) (r : Bool × Session) (next : Session → Bool × Session)
    → Done a before r
    → ((s : Session) → Done b s.performed (next s))
    → Done (a ++ b) before (and_then r next)
unfolding Done and_then
and_then-Done a b before (true, s) next d n = after-Done a b before s.performed (next s) d (n s)
and_then-Done a b before (false, s) next (done, rest, e, d) n =
    (done, rest ++ b, ap (λ x. x ++ b) e ∙ append_assoc done rest b, d)

for_each-Done :
    {A : Type 0} (f : A → List Operation) (step : A → Session → Bool × Session)
    → ((a : A) (s : Session) → Done (f a) s.performed (step a s))
    → (xs : List A) (s : Session) → Done (flat f xs) s.performed (for_each step xs s)
unfolding for_each
for_each-Done f step d [] s = skipped-Done s
for_each-Done f step d (x ∷ xs) s = and_then-Done _ _ _ _ _ (d x s) (for_each-Done f step d xs)

-- A step under a guard that raises.
guarded-Done :
    (b : Bool) (ops : List Operation) (s : Session) (r : Bool × Session)
    → Done ops s.performed r
    → Done ops s.performed (if b then r else (false, s))
guarded-Done true ops s r d = d
guarded-Done false ops s r d = raised-Done s false ops refl

with_channel-Done :
    (ops : List Operation) (next : Session → Bool × Session)
    → ((s : Session) → Done ops s.performed (next s))
    → (s : Session) → Done ops s.performed (with_channel next s)
unfolding with_channel
with_channel-Done ops next d s = guarded-Done s.has_channel ops s (next s) (d s)

module _ (broker : Broker) where
  perform-Done : (op : Operation) (s : Session) → Done (op ∷ []) s.performed (perform broker op s)
  unfolding perform Done
  perform-Done op s = elim (Bool-cases (broker.works s.performed op)) [
    | inl e ↦ rw e refl
    | inr e ↦ rw e (raised-Done s false (op ∷ []) refl)
  ]

  create_connection-Done :
      (s : Session) → Done (connect ∷ open_channel ∷ []) s.performed (create_connection broker s)
  unfolding create_connection connected channel_opened
  create_connection-Done s = and_then-Done (connect ∷ []) _ _ _ _ (perform-Done connect s) (λ t.
      and_then-Done [] _ _ _ _ (moved-Done t (record t { has_connection = true }) refl) (λ u.
        and_then-Done (open_channel ∷ []) [] _ _ _ (perform-Done open_channel u)
          (λ v. moved-Done v (record v { has_channel = true }) refl)))

  exchange_declared-Done :
      (c : ConsumerSubscription) (s : Session)
      → Done (exchange_declarations c) s.performed (exchange_declared broker c s)
  unfolding exchange_declared
  exchange_declared-Done c s = elim (Bool-cases (is_empty c.exchange_name)) [
    | inl n ↦ rw n (skipped-Done s)
    | inr n ↦ elim (Bool-cases (broker.is_exchange_type c.exchange_type)) [
      | inl e ↦ rw (n, e) (and_then-Done (_ ∷ []) _ _ _ _ (perform-Done _ s) (perform-Done _))
      | inr e ↦ rw (n, e) (raised-Done s false _ refl)
    ]
  ]

  subscription_declared-Done :
      (c : ConsumerSubscription) (s : Session)
      → Done (declarations c) s.performed (subscription_declared broker c s)
  unfolding subscription_declared
  subscription_declared-Done c s =
      and_then-Done (_ ∷ []) _ _ _ _ (perform-Done _ s)
        (λ t. and_then-Done _ _ _ _ _ (exchange_declared-Done c t) (perform-Done _))

  consuming-Done :
      (c : ConsumerSubscription) (s : Session)
      → Done (consumption c) s.performed (consuming broker c s)
  unfolding consuming
  consuming-Done c s =
      and_then-Done (_ ∷ []) _ _ _ _ (perform-Done _ s)
        (λ t. and_then-Done (_ ∷ []) _ _ _ _ (perform-Done _ t) (perform-Done _))

  consumed-Done :
      (cs : List ConsumerSubscription) (s : Session)
      → Done
          (flat consumption cs)
          s.performed
          (if is_nil cs then (true, s) else start_consuming broker cs s)
  unfolding start_consuming
  consumed-Done [] s = skipped-Done s
  consumed-Done (c ∷ cs) s = for_each-Done consumption (consuming broker) consuming-Done (c ∷ cs) s

  started-Done :
      (config : Option RabbitMqConfiguration) (s : Session)
      → Done (script (subscriptions_of config)) s.performed (started broker config s)
  unfolding started initialize_subscriptions consume_configured
  started-Done config s = guarded-Done s.has_service _ s _ (
      and_then-Done (connect ∷ open_channel ∷ []) _ _ _ _ (create_connection-Done s) (λ t.
        and_then-Done _ _ _ _ _
          (with_channel-Done _ _
            (for_each-Done declarations _ subscription_declared-Done (subscriptions_of config)) t)
          (with_channel-Done _ _ (consumed-Done (subscriptions_of config)))))

  -- What the worker asks of the broker from where it starts is the beginning of the script of its
  -- subscriptions, whatever fails, and the whole of it where `run` does not raise.
  pub run-script :
      (m : MessageConfiguration) (s : Session)
      → let r = run broker m s in
        (done rest : List Operation) × (script (subscriptions_of m.rabbit_mq_configuration)
          ≡ done ++ rest)
        × (r.1.performed ≡ s.performed ++ done)
        × (r.0 ≢ raised → rest ≡ [])
  unfolding run finished Done
  run-script m s = told _ (started-Done m.rabbit_mq_configuration s)
    where
      told :
          (r : Bool × Session)
          → Done (script (subscriptions_of m.rabbit_mq_configuration)) s.performed r
          → let f = finished broker m.rabbit_mq_configuration r in
            (done rest : List Operation) × (script (subscriptions_of m.rabbit_mq_configuration)
              ≡ done ++ rest)
            × (f.1.performed ≡ s.performed ++ done)
            × (f.0 ≢ raised → rest ≡ [])
      told (true, t) d = (_, [], sym (append-nil _), d, λ n. refl)
      told (false, t) (done, rest, e, d) = (done, rest, e, d, λ n. absurd (n refl))

-- ===== src/Messaging/Topology/Provisioned.antt =====
-- What the service has once it is configured.
use blocks_genesis_py.Prelude.{
  String, Bool, true, false, List, [], ◌∷◌, some, if◌then◌else◌, ◌≡◌, refl, sym, subst, inl, inr,
  ◌⊎◌, Bool-cases, Elem,
}
use blocks_genesis_py.Messaging.Configuration.{
  AzureServiceBusConfiguration, MessageConfiguration, get_subscription_name,
}
use blocks_genesis_py.Messaging.Topology.{
  Entity, queue, topic, subscription, Settings, Administration, and_then, for_each, created_unless,
  ensured, ensure_queue, ensure_topic, create_subscription, create_queues, topic_and_subscription,
  create_topics_and_subscriptions, provisioned, configure_queue_and_topic,
}

-- What the service's administration promises: a read that returns has found the entity, a creation that
-- returns has made it, and neither takes an entity away nor brings another one about. Either may fail for
-- any other reason.
pub record Promises {S : Type 0} (admin : Administration S) (Has : Entity → S → Type 0)
    : Type 1 where
  pub found :
      (e : Entity) (s : S) → (admin.get_entity e s).0 ≡ true → Has e (admin.get_entity e s).1
  pub made :
      (e : Entity) (settings : Settings) (s : S)
      → (admin.create_entity e settings s).0 ≡ true
      → Has e (admin.create_entity e settings s).1
  pub kept_by_get : (e d : Entity) (s : S) → Has d s → Has d (admin.get_entity e s).1
  pub kept_by_create :
      (e d : Entity) (settings : Settings) (s : S)
      → Has d s
      → Has d (admin.create_entity e settings s).1
  pub none_by_get : (e d : Entity) (s : S) → Has d (admin.get_entity e s).1 → Has d s
  pub only_by_create :
      (e d : Entity) (settings : Settings) (s : S)
      → Has d (admin.create_entity e settings s).1
      → Has d s ⊎ (d ≡ e)

-- The entities of a configuration: its queues, its topics, and a subscription of each topic.
pub data Configured (m : MessageConfiguration) (c : AzureServiceBusConfiguration)
    : Entity → Type 0 where
  a_queue : {q : String} → Elem q c.queues → Configured m c (queue q)
  a_topic : {t : String} → Elem t c.topics → Configured m c (topic t)
  a_subscription :
      {t : String} → Elem t c.topics → Configured m c (subscription t (get_subscription_name m t))

module _ {S : Type 0} (Has : Entity → S → Type 0) where
  -- A step that takes nothing away, adds nothing but entities of `P`, and has all of these there where it
  -- returns.
  record Provisions (P : Entity → Type 0) (step : S → Bool × S) : Type 0 where
    keeps : (d : Entity) (s : S) → Has d s → Has d (step s).1
    adds : (d : Entity) (s : S) → Has d (step s).1 → Has d s ⊎ P d
    makes : (s : S) → (step s).0 ≡ true → (e : Entity) → P e → Has e (step s).1

  both-Provisions :
      {P Q : Entity → Type 0} {a b : S → Bool × S}
      → Provisions P a
      → Provisions Q b
      → Provisions (λ e. P e ⊎ Q e) (λ s. and_then (a s) b)
  unfolding and_then
  both-Provisions {P} {Q} {a} {b} p q = record {
    keeps = λ d s h. after_kept d (a s) (p.keeps d s h);
    makes = λ s r e m. after_made e (a s) r (λ there k. p.makes s there e k) m;
    adds = λ d s h. added d s (a s) (p.adds d s) h;
  }
    where
      added :
          (d : Entity) (s : S) (r : Bool × S)
          → (Has d r.1 → Has d s ⊎ P d)
          → Has d (and_then r b).1
          → Has d s ⊎ (P d ⊎ Q d)
      added d s (true, t) before h = elim (q.adds d t h) [
        | inl k ↦ elim (before k) [ inl old ↦ inl old | inr new ↦ inr (inl new) ]
        | inr new ↦ inr (inr new)
      ]
      added d s (false, t) before h = elim (before h) [
        | inl old ↦ inl old
        | inr new ↦ inr (inl new)
      ]

      after_kept : (d : Entity) (r : Bool × S) → Has d r.1 → Has d (and_then r b).1
      after_kept d (true, t) h = q.keeps d t h
      after_kept d (false, t) h = h

      after_made :
          (e : Entity) (r : Bool × S)
          → (and_then r b).0 ≡ true
          → (r.0 ≡ true → P e → Has e r.1)
          → P e ⊎ Q e
          → Has e (and_then r b).1
      after_made e (true, t) done first (inl m) = q.keeps e t (first refl m)
      after_made e (true, t) done first (inr m) = q.makes t done e m
      after_made e (false, t) done first m = cc

  -- The same entities, told otherwise.
  retold-Provisions :
      {P Q : Entity → Type 0} {a : S → Bool × S}
      → Provisions P a
      → ((e : Entity) → P e → Q e)
      → ((e : Entity) → Q e → P e)
      → Provisions Q a
  retold-Provisions p to from = record {
    keeps = p.keeps;
    makes = λ s r e m. p.makes s r e (from e m);
    adds = λ d s h. elim (p.adds d s h) [ inl old ↦ inl old | inr new ↦ inr (to d new) ];
  }

  -- A step under a guard that raises.
  guarded-Provisions :
      {P : Entity → Type 0} {a : S → Bool × S} (b : Bool)
      → Provisions P a
      → Provisions P (λ s. if b then a s else (false, s))
  guarded-Provisions true p = record { keeps = p.keeps; adds = p.adds; makes = p.makes }
  guarded-Provisions false p = record {
    keeps = λ d s h. h;
    adds = λ d s h. inl h;
    makes = λ s r e m. cc;
  }

  for_each-Provisions :
      {A : Type 0} {P : A → Entity → Type 0} {step : A → S → Bool × S}
      → ((a : A) → Provisions (P a) (step a))
      → (xs : List A) → Provisions (λ e. (a : A) × Elem a xs × P a e) (for_each step xs)
  unfolding for_each
  for_each-Provisions p [] = record {
    keeps = λ d s h. h;
    makes = λ s r e m. absurd m.1;
    adds = λ d s h. inl h;
  }
  for_each-Provisions {A} {P} p (x ∷ xs) =
      retold-Provisions (both-Provisions (p x) (for_each-Provisions p xs))
        (λ e m. elim m [ inl k ↦ (x, inl refl, k) | inr (a, k, l) ↦ (a, inr k, l) ])
        (λ e (a, k, l). elim k [ inl q ↦ inl (subst (λ y. P y e) q l) | inr i ↦ inr (a, i, l) ])

module _ {S : Type 0} (admin : Administration S) {Has : Entity → S → Type 0}
    (promises : Promises admin Has) where
  -- The entity, and no other.
  abbrev Only : Entity → Entity → Type 0
  Only e d = d ≡ e

  ensured-Provisions :
      (e : Entity) (settings : Settings) → Provisions Has (Only e) (ensured admin e settings)
  unfolding ensured created_unless
  ensured-Provisions e settings = record {
    keeps = λ d s h. after_kept d (admin.get_entity e s) (promises.kept_by_get e d s h);
    makes = λ s r d q. ap-Has q (after_made (admin.get_entity e s) (promises.found e s) r);
    adds = λ d s h. added d s (admin.get_entity e s) (promises.none_by_get e d s) h;
  }
    where
      added :
          (d : Entity) (s : S) (r : Bool × S)
          → (Has d r.1 → Has d s)
          → Has d (created_unless admin e settings r).1
          → Has d s ⊎ Only e d
      added d s (true, t) before h = inl (before h)
      added d s (false, t) before h = elim (promises.only_by_create e d settings t h) [
        | inl k ↦ inl (before k)
        | inr q ↦ inr q
      ]

      after_kept :
          (d : Entity) (r : Bool × S) → Has d r.1 → Has d (created_unless admin e settings r).1
      after_kept d (true, t) h = h
      after_kept d (false, t) h = promises.kept_by_create e d settings t h

      after_made :
          (r : Bool × S)
          → (r.0 ≡ true → Has e r.1)
          → (created_unless admin e settings r).0 ≡ true
          → Has e (created_unless admin e settings r).1
      after_made (true, t) there done = there refl
      after_made (false, t) there done = promises.made e settings t done

      ap-Has : {d : Entity} {t : S} → d ≡ e → Has e t → Has d t
      ap-Has {d} {t} q = subst (λ x. Has x t) (sym q)

  abbrev Queues : MessageConfiguration → AzureServiceBusConfiguration → Entity → Type 0
  Queues m c e = (q : String) × Elem q c.queues × Only (queue q) e

  abbrev Topics : MessageConfiguration → AzureServiceBusConfiguration → Entity → Type 0
  Topics m c e =
      (t : String) × Elem t c.topics
      × (Only (topic t) e ⊎ Only (subscription t (get_subscription_name m t)) e)

  module _ (m : MessageConfiguration) (c : AzureServiceBusConfiguration) where
    create_queues-Provisions : Provisions Has (Queues m c) (create_queues admin c)
    unfolding create_queues ensure_queue
    create_queues-Provisions =
        for_each-Provisions Has (λ q. ensured-Provisions (queue q) _) c.queues

    create_topics_and_subscriptions-Provisions :
        Provisions Has
          (Topics m c)
          (create_topics_and_subscriptions admin c (get_subscription_name m))
    unfolding create_topics_and_subscriptions topic_and_subscription ensure_topic
        create_subscription get_subscription_name
    create_topics_and_subscriptions-Provisions =
        for_each-Provisions Has
          (λ t.
            both-Provisions Has (ensured-Provisions (topic t) _)
              (ensured-Provisions (subscription t (get_subscription_name m t)) _))
          c.topics

    to_Configured : (e : Entity) → Queues m c e ⊎ Topics m c e → Configured m c e
    to_Configured e (inl (q, i, r)) = subst (Configured m c) (sym r) (a_queue i)
    to_Configured e (inr (t, i, inl r)) = subst (Configured m c) (sym r) (a_topic i)
    to_Configured e (inr (t, i, inr r)) = subst (Configured m c) (sym r) (a_subscription i)

    of_Configured : (e : Entity) → Configured m c e → Queues m c e ⊎ Topics m c e
    of_Configured _ (a_queue i) = inl (_, i, refl)
    of_Configured _ (a_topic i) = inr (_, i, inl refl)
    of_Configured _ (a_subscription i) = inr (_, i, inr refl)

    provisioned-Provisions :
        Provisions Has (Configured m c) (provisioned admin (get_subscription_name m) (some c))
    unfolding provisioned
    provisioned-Provisions =
        retold-Provisions Has
          (both-Provisions Has create_queues-Provisions create_topics_and_subscriptions-Provisions)
          to_Configured of_Configured

  configure-Provisions :
      (m : MessageConfiguration) (c : AzureServiceBusConfiguration)
      → m.azure_service_bus_configuration ≡ some c
      → Provisions Has (Configured m c) (configure_queue_and_topic admin m)
  unfolding configure_queue_and_topic
  configure-Provisions m c q =
      let works = admin.from_connection_string m.connection in
      subst
        (λ o.
          Provisions Has (Configured m c)
            (λ s. if works then provisioned admin (get_subscription_name m) o s else (false, s)))
        (sym q) (guarded-Provisions Has works (provisioned-Provisions m c))

  -- The set-up of Service Bus raises, or every queue and topic of the configuration is there, and the
  -- service's subscription of every topic. In either case what was there before is still there, and
  -- nothing has been added that is not configured. The service is one whose reads change nothing that it
  -- has and return only for what is there, and whose creations take nothing away, add no other entity,
  -- and have made theirs where they return.
  pub configure_queue_and_topic-Provisions :
      (m : MessageConfiguration) (c : AzureServiceBusConfiguration) (s : S)
      → m.azure_service_bus_configuration ≡ some c
      → let r = configure_queue_and_topic admin m s in
        ((r.0 ≡ false) ⊎ ((e : Entity) → Configured m c e → Has e r.1))
        × ((e : Entity) → Has e s → Has e r.1)
        × ((e : Entity) → Has e r.1 → Has e s ⊎ Configured m c e)
  configure_queue_and_topic-Provisions m c s q =
      let p = configure-Provisions m c q in
      (
        elim (Bool-cases (configure_queue_and_topic admin m s).0) [
          | inl done ↦ inr (p.makes s done)
          | inr e ↦ inl e
        ],
        (λ e. p.keeps e s),
        (λ e. p.adds e s),
      )

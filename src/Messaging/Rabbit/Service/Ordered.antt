-- ===== src/Messaging/Rabbit/Service/Ordered.antt =====
-- What comes before a consumption.
use mathlib.Core.List.{append_assoc}
use blocks_genesis_py.Prelude.{
  String, Bool, true, false, List, [], ◌∷◌, ◌++◌, ◌⊎◌, subst, arith, Bool-cases, all, not, Elem,
  ◌≡◌, ◌∙◌, refl, sym, ap, inl, inr,
}
use blocks_genesis_py.Prelude.Text.{is_empty}
use blocks_genesis_py.Messaging.Configuration.{ConsumerSubscription, MessageConfiguration}
use blocks_genesis_py.Messaging.Rabbit.Service.Scripted.{
  flat, exchange_declarations, declarations, consumption, run-script,
}
use blocks_genesis_py.Messaging.Rabbit.Service.{
  Operation, connect, open_channel, set_qos, consume, Broker, Session, subscriptions_of, run,
}

abbrev is_consume : Operation → Bool
is_consume (consume q) = true
is_consume _ = false

-- A list without a consumption that comes first lies before the first consumption.
before_consume :
    (a b before after : List Operation) (q : String) (op : Operation)
    → all (λ o. not (is_consume o)) a ≡ true
    → a ++ b ≡ before ++ consume q ∷ after
    → Elem op a
    → Elem op before
before_consume [] b before after q op n e i = absurd i
before_consume (x ∷ a) b [] after q op n e i = cc
before_consume (x ∷ a) b (y ∷ before) after q op n e (inl i) = inl cc
before_consume (x ∷ a) b (y ∷ before) after q op n e (inr i) =
    let tail : a ++ b ≡ before ++ consume q ∷ after = cc in
    inr (before_consume a b before after q op (ground arith) tail i)

all-append :
    (p : Operation → Bool) (a b : List Operation)
    → all p a ≡ true
    → all p b ≡ true
    → all p (a ++ b) ≡ true
all-append p [] b h k = k
all-append p (x ∷ a) b h k = ground (arith, all-append p a b)

exchange_declarations-quiet :
    (c : ConsumerSubscription) → all (λ o. not (is_consume o)) (exchange_declarations c) ≡ true
exchange_declarations-quiet c = elim (Bool-cases (is_empty c.exchange_name)) [
  | inl e ↦ rw e refl
  | inr e ↦ rw e refl
]

-- Nothing is consumed among the declarations.
declarations-quiet :
    (cs : List ConsumerSubscription) → all (λ o. not (is_consume o)) (flat declarations cs) ≡ true
declarations-quiet [] = refl
declarations-quiet (c ∷ cs) =
    all-append _ (exchange_declarations c ++ set_qos c.prefetch_count ∷ []) (flat declarations cs)
      (all-append _ (exchange_declarations c) (set_qos c.prefetch_count ∷ [])
        (exchange_declarations-quiet c) refl)
      (declarations-quiet cs)

Elem-append : (op : Operation) (a b : List Operation) → Elem op a ⊎ Elem op b → Elem op (a ++ b)
Elem-append op [] b (inl i) = absurd i
Elem-append op [] b (inr i) = i
Elem-append op (x ∷ a) b (inl (inl e)) = inl e
Elem-append op (x ∷ a) b (inl (inr i)) = inr (Elem-append op a b (inl i))
Elem-append op (x ∷ a) b (inr i) = inr (Elem-append op a b (inr i))

Elem-flat :
    (op : Operation) (c : ConsumerSubscription) (cs : List ConsumerSubscription)
    → Elem c cs
    → Elem op (declarations c)
    → Elem op (flat declarations cs)
Elem-flat op c [] i j = absurd i
Elem-flat op c (d ∷ cs) (inl e) j =
    Elem-append op (declarations d) _ (inl (subst (λ x. Elem op (declarations x)) e j))
Elem-flat op c (d ∷ cs) (inr i) j = Elem-append op (declarations d) _ (inr (Elem-flat op c cs i j))

-- A worker that starts afresh consumes no queue before every subscription's queue is declared, and its
-- exchange, with the queue bound to it.
pub run-declares_first :
    (broker : Broker) (m : MessageConfiguration) (s : Session) (before after : List Operation)
    (q : String)
    → s.performed ≡ []
    → (run broker m s).1.performed ≡ before ++ consume q ∷ after
    → (c : ConsumerSubscription) → Elem c (subscriptions_of m.rabbit_mq_configuration)
    → (op : Operation) → Elem op (declarations c)
    → Elem op before
run-declares_first broker m s before after q fresh ends c i op j =
    let (done, rest, e, d, _) = run-script broker m s in
    let cs = subscriptions_of m.rabbit_mq_configuration in
    let begun : done ≡ before ++ consume q ∷ after =
      ap (λ x. x ++ done) (sym fresh) ∙ sym d ∙ ends in
    before_consume (connect ∷ open_channel ∷ flat declarations cs) (flat consumption cs) before
      (after ++ rest) q op (declarations-quiet cs)
      (e ∙ ap (λ x. x ++ rest) begun ∙ append_assoc before (consume q ∷ after) rest)
      (inr (inr (Elem-flat op c cs i j)))

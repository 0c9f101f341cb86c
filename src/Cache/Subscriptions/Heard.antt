-- ===== src/Cache/Subscriptions/Heard.antt =====
-- What the handlers are given while no task listens to a channel.
use blocks_genesis_py.Prelude.{
  ℕ, String, Bool, true, false, List, [], ◌∷◌, ◌++◌, Option, none, some, nat_eq, ◌⊎◌, inl, inr, ◌≡◌,
  ◌≢◌, refl, sym, ap, ◌∙◌, either_way,
}
use blocks_genesis_py.Prelude.Dict.{Dict, get}
use blocks_genesis_py.Prelude.Text.{is_empty}
use blocks_genesis_py.Cache.Subscriptions.{
  Task, unstarted, listening, cancelled, failed, Client, Outcome, set_task, subscribed, delivered,
  broken, all_cancelled, closed, dispose_async, subscribe_async, stopped, has_failed, unsubscribed,
  unsubscribe_async, dispose, Event, subscribes, unsubscribes, delivers, breaks, disposes,
  disposes_async, step,
}
use blocks_genesis_py.Cache.Subscriptions.Listed.{none-some, channel_of-stopped, channel_of}

-- No task listens to the channel.
abbrev pub IsSilent : String → Client → Type 0
IsSilent k c = (n : ℕ) → channel_of (c.tasks n) ≢ some k

-- What a step adds to what handlers were given: nothing, or one message that a task was listening for, of
-- another channel.
abbrev pub HeardElsewhere : String → Client → Client → Type 0
HeardElsewhere k c d =
    (d.handled ≡ c.handled)
    ⊎ ((n : ℕ) × (channel : String) × (handler : ℕ) × (message : String) × (c.tasks n
          ≡ listening channel handler)
        × (channel ≢ k)
        × (d.handled ≡ c.handled ++ (handler, channel, message) ∷ []))

-- At every step of the events no task listens to the channel, and no handler gets a message of it.
abbrev pub StaysSilent : String → List Event → Client → Type 0
StaysSilent k [] c = IsSilent k c
StaysSilent k (e ∷ es) c =
    IsSilent k c × HeardElsewhere k c (step e c) × StaysSilent k es (step e c)

-- The channel is not subscribed.
abbrev pub NotSubscribed : String → List Event → Type 0
NotSubscribed k [] = Unit
NotSubscribed k (subscribes works j h ∷ es) = (j ≢ k) × NotSubscribed k es
NotSubscribed k (_ ∷ es) = NotSubscribed k es

-- The step keeps the channel silent.
abbrev Keeps : String → Client → Client → Type 0
Keeps k c d = IsSilent k d × HeardElsewhere k c d

set_task-IsSilent :
    (k : String) (n : ℕ) (t : Task) (c : Client)
    → channel_of t ≢ some k
    → IsSilent k c
    → IsSilent k (set_task n t c)
set_task-IsSilent k n t c a s m = either_way (λ u. channel_of u ≢ some k) (nat_eq n m) a (s m)

stopped-IsSilent :
    (k : String) (n : ℕ) (c : Client)
    → IsSilent k c
    → IsSilent k (set_task n (stopped (c.tasks n)) c)
stopped-IsSilent k n c s =
    set_task-IsSilent k n (stopped (c.tasks n)) c
      (λ e. none-some (sym (channel_of-stopped (c.tasks n)) ∙ e)) s

subscribe_async-Keeps :
    (works : Bool) (j k : String) (o : Option ℕ) (c : Client)
    → j ≢ k
    → IsSilent k c
    → Keeps k c (subscribe_async works j o c).1
unfolding subscribe_async subscribed
subscribe_async-Keeps works j k none c a s = (s, inl refl)
subscribe_async-Keeps works j k (some h) c a s =
    either_way (λ (r : Outcome × Client). Keeps k c r.1) (is_empty j) (s, inl refl)
      (either_way (λ (r : Outcome × Client). Keeps k c r.1) works
        (set_task-IsSilent k c.started (listening j h) c (λ e. a (cc e)) s, inl refl) (s, inl refl))

unsubscribed-Keeps :
    (j k : String) (o : Option ℕ) (c : Client) → IsSilent k c → Keeps k c (unsubscribed o j c).1
unfolding unsubscribed
unsubscribed-Keeps j k none c s = (s, inl refl)
unsubscribed-Keeps j k (some n) c s =
    let t = stopped-IsSilent k n c s in
    either_way (λ (r : Outcome × Client). Keeps k c r.1) (has_failed (c.tasks n)) (t, inl refl)
      (t, inl refl)

unsubscribe_async-Keeps :
    (j k : String) (c : Client) → IsSilent k c → Keeps k c (unsubscribe_async j c).1
unfolding unsubscribe_async
unsubscribe_async-Keeps j k c s =
    either_way (λ (r : Outcome × Client). Keeps k c r.1) (is_empty j) (s, inl refl)
      (unsubscribed-Keeps j k (get c.pubsub_tasks j) c s)

delivered-Keeps :
    (k : String) (t : Task) (n : ℕ) (message : String) (raises : Bool) (c : Client)
    → c.tasks n ≡ t
    → IsSilent k c
    → Keeps k c (delivered t n message raises c)
unfolding delivered
delivered-Keeps k (listening j h) n message raises c e s =
    either_way (Keeps k c) raises
      (set_task-IsSilent k n failed c none-some s, inr (n, j, h, message, e, other, refl))
      (s, inr (n, j, h, message, e, other, refl))
  where
    other : j ≢ k
    other q = s n (ap channel_of e ∙ ap some q)
delivered-Keeps k unstarted n message raises c e s = (s, inl refl)
delivered-Keeps k cancelled n message raises c e s = (s, inl refl)
delivered-Keeps k failed n message raises c e s = (s, inl refl)

broken-Keeps :
    (k : String) (t : Task) (n : ℕ) (c : Client) → IsSilent k c → Keeps k c (broken t n c)
unfolding broken
broken-Keeps k (listening j h) n c s = (set_task-IsSilent k n failed c none-some s, inl refl)
broken-Keeps k unstarted n c s = (s, inl refl)
broken-Keeps k cancelled n c s = (s, inl refl)
broken-Keeps k failed n c s = (s, inl refl)

all_cancelled-Keeps :
    (k : String) (table : Dict ℕ) (c : Client)
    → IsSilent k c
    → IsSilent k (all_cancelled table c).1 × ((all_cancelled table c).1.handled ≡ c.handled)
unfolding all_cancelled
all_cancelled-Keeps k [] c s = (s, refl)
all_cancelled-Keeps k ((j, n) ∷ rest) c s =
    either_way (λ (r : Bool × Client). IsSilent k r.1 × (r.1.handled ≡ c.handled))
      (has_failed (c.tasks n)) (s, refl)
      (all_cancelled-Keeps k rest (set_task n (stopped (c.tasks n)) c) (stopped-IsSilent k n c s))

closed-Keeps :
    (k : String) (c : Client) (r : Bool × Client)
    → IsSilent k r.1 × (r.1.handled ≡ c.handled)
    → Keeps k c (closed r).1
unfolding closed
closed-Keeps k c (false, d) (a, b) = (a, inl b)
closed-Keeps k c (true, d) (a, b) = (a, inl b)

dispose_async-Keeps : (k : String) (c : Client) → IsSilent k c → Keeps k c (dispose_async c).1
unfolding dispose_async
dispose_async-Keeps k c s =
    either_way (λ (r : Outcome × Client). Keeps k c r.1) c.disposed (s, inl refl)
      (closed-Keeps k c (all_cancelled c.pubsub_tasks c) (all_cancelled-Keeps k c.pubsub_tasks c s))

pub run-StaysSilent :
    (k : String) (es : List Event) (c : Client)
    → NotSubscribed k es
    → IsSilent k c
    → StaysSilent k es c
unfolding step dispose
run-StaysSilent k [] c q s = s
run-StaysSilent k (subscribes works j h ∷ es) c q s =
    let (a, b) = subscribe_async-Keeps works j k h c q.0 s in
    (s, b, run-StaysSilent k es (step (subscribes works j h) c) q.1 a)
run-StaysSilent k (unsubscribes j ∷ es) c q s =
    let (a, b) = unsubscribe_async-Keeps j k c s in
    (s, b, run-StaysSilent k es (step (unsubscribes j) c) q a)
run-StaysSilent k (delivers n m raises ∷ es) c q s =
    let (a, b) = delivered-Keeps k (c.tasks n) n m raises c refl s in
    (s, b, run-StaysSilent k es (step (delivers n m raises) c) q a)
run-StaysSilent k (breaks n ∷ es) c q s =
    let (a, b) = broken-Keeps k (c.tasks n) n c s in
    (s, b, run-StaysSilent k es (step (breaks n) c) q a)
run-StaysSilent k (disposes ∷ es) c q s =
    let (a, b) : Keeps k c (step disposes c) =
      either_way (Keeps k c) c.disposed (s, inl refl) (s, inl refl) in
    (s, b, run-StaysSilent k es (step disposes c) q a)
run-StaysSilent k (disposes_async ∷ es) c q s =
    let (a, b) = dispose_async-Keeps k c s in
    (s, b, run-StaysSilent k es (step disposes_async c) q a)

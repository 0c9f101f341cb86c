-- ===== src/Cache/Subscriptions/Silent.antt =====
-- Channels that are unsubscribed.
use blocks_genesis_py.Prelude.{
  ℕ, String, Bool, false, List, [], ◌∷◌, ◌++◌, Option, none, some, eq_refl, ◌≡◌, refl, sym, ap, ◌∙◌,
  either_way,
}
use blocks_genesis_py.Prelude.Dict.{get, pop, get-pop}
use blocks_genesis_py.Prelude.Text.{is_empty}
use blocks_genesis_py.Cache.Subscriptions.{
  Client, Outcome, set_task, subscribe_async, stopped, has_failed, unsubscribed, unsubscribe_async,
  dispose, Event, subscribes, unsubscribes, delivers, breaks, disposes, disposes_async, step, run,
  new_client,
}
use blocks_genesis_py.Cache.Subscriptions.Heard.{
  IsSilent, StaysSilent, NotSubscribed, run-StaysSilent,
}
use blocks_genesis_py.Cache.Subscriptions.Listed.{
  channel_of, IsListed, subscribed-IsListed, unsubscribed-IsListed, delivered-IsListed,
  broken-IsListed, dispose_async-IsListed,
}

-- A channel is only subscribed while the table has no task for it.
abbrev pub Disciplined : List Event → Client → Type 0
Disciplined [] c = Unit
Disciplined (subscribes works k h ∷ es) c =
    (get c.pubsub_tasks k ≡ none) × Disciplined es (step (subscribes works k h) c)
Disciplined (e ∷ es) c = Disciplined es (step e c)

subscribe_async-IsListed :
    (works : Bool) (k : String) (o : Option ℕ) (c : Client)
    → get c.pubsub_tasks k ≡ none
    → IsListed c
    → IsListed (subscribe_async works k o c).1
unfolding subscribe_async
subscribe_async-IsListed works k none c e l = l
subscribe_async-IsListed works k (some h) c e l =
    either_way (λ (r : Outcome × Client). IsListed r.1) (is_empty k) l
      (subscribed-IsListed works k h c e l)

unsubscribe_async-IsListed :
    (k : String) (c : Client) → IsListed c → IsListed (unsubscribe_async k c).1
unfolding unsubscribe_async
unsubscribe_async-IsListed k c l =
    either_way (λ (r : Outcome × Client). IsListed r.1) (is_empty k) l
      (unsubscribed-IsListed (get c.pubsub_tasks k) k c refl l)

run-IsListed : (es : List Event) (c : Client) → Disciplined es c → IsListed c → IsListed (run es c)
unfolding run step dispose
run-IsListed [] c w l = l
run-IsListed (subscribes works k h ∷ es) c w l =
    run-IsListed es (step (subscribes works k h) c) w.1 (subscribe_async-IsListed works k h c w.0 l)
run-IsListed (unsubscribes k ∷ es) c w l =
    run-IsListed es (step (unsubscribes k) c) w (unsubscribe_async-IsListed k c l)
run-IsListed (delivers n m raises ∷ es) c w l =
    run-IsListed es (step (delivers n m raises) c) w (delivered-IsListed (c.tasks n) n m raises c l)
run-IsListed (breaks n ∷ es) c w l =
    run-IsListed es (step (breaks n) c) w (broken-IsListed (c.tasks n) n c l)
run-IsListed (disposes ∷ es) c w l =
    run-IsListed es (step disposes c) w
      (either_way IsListed c.disposed l (record { listed = l.listed }))
run-IsListed (disposes_async ∷ es) c w l =
    run-IsListed es (step disposes_async c) w (dispose_async-IsListed c l)

unsubscribed-gone :
    (o : Option ℕ) (k : String) (c : Client)
    → get c.pubsub_tasks k ≡ o
    → get (unsubscribed o k c).1.pubsub_tasks k ≡ none
unfolding unsubscribed
unsubscribed-gone none k c e = e
unsubscribed-gone (some n) k c e =
    let out = record (set_task n (stopped (c.tasks n)) c) { pubsub_tasks = pop c.pubsub_tasks k } in
    let gone : get (pop c.pubsub_tasks k) k ≡ none =
      get-pop c.pubsub_tasks k k ∙ rw (eq_refl k) refl in
    either_way (λ (r : Outcome × Client). get r.1.pubsub_tasks k ≡ none) (has_failed (c.tasks n))
      gone gone

unsubscribe_async-gone :
    (k : String) (c : Client)
    → is_empty k ≡ false
    → get (unsubscribe_async k c).1.pubsub_tasks k ≡ none
unfolding unsubscribe_async
unsubscribe_async-gone k c e = rw e (unsubscribed-gone (get c.pubsub_tasks k) k c refl)

run-append : (es fs : List Event) (c : Client) → run (es ++ fs) c ≡ run fs (run es c)
unfolding run
run-append [] fs c = refl
run-append (e ∷ es) fs c = run-append es fs (step e c)

run_unsubscribes :
    (k : String) (c : Client) → run (unsubscribes k ∷ []) c ≡ (unsubscribe_async k c).1
unfolding run step
run_unsubscribes k c = refl

new_client-IsListed : IsListed new_client
new_client-IsListed = record { listed = λ n k h. cc }

unsubscribed-IsSilent :
    (es : List Event) (k : String)
    → Disciplined es new_client
    → is_empty k ≡ false
    → IsSilent k (run (es ++ unsubscribes k ∷ []) new_client)
unsubscribed-IsSilent es k w e n h =
    let c = run es new_client in
    let same = run-append es (unsubscribes k ∷ []) new_client ∙ run_unsubscribes k c in
    let l = unsubscribe_async-IsListed k c (run-IsListed es new_client w new_client-IsListed) in
    let there = l.listed n k (ap (λ d. channel_of (d.tasks n)) (sym same) ∙ h) in
    let gone : none ≡ some n = sym (unsubscribe_async-gone k c e) ∙ there in cc

-- Where no channel is subscribed while the table has a task for it, and whatever else happens, messages,
-- errors and disposals included: once a channel is unsubscribed, also where that raises, and until it is
-- subscribed again, no task listens to it. No handler is given anything then but a message of another
-- channel, by a task that listens to that.
pub unsubscribed_silent :
    (es fs : List Event) (k : String)
    → Disciplined es new_client
    → is_empty k ≡ false
    → NotSubscribed k fs
    → StaysSilent k fs (run (es ++ unsubscribes k ∷ []) new_client)
unsubscribed_silent es fs k w e q =
    run-StaysSilent k fs (run (es ++ unsubscribes k ∷ []) new_client) q
      (unsubscribed-IsSilent es k w e)

-- ===== src/Cache/Subscriptions/Listed.antt =====
-- The table of the listening tasks.
use blocks_genesis_py.Prelude.{
  ℕ, String, Bool, true, false, [], ◌∷◌, ◌++◌, Option, none, some, ◌==◌, eq_iff, ◌≡◌, ◌≢◌, refl,
  sym, ap, subst, ◌∙◌, inl, inr, Bool-cases, either_way, arith,
}
use blocks_genesis_py.Prelude.Dict.{Dict, get, pop, get-insert, get-pop}
use blocks_genesis_py.Cache.Subscriptions.{
  Task, unstarted, listening, cancelled, failed, Client, Outcome, set_task, subscribed, stopped,
  has_failed, unsubscribed, delivered, broken, all_cancelled, closed, dispose_async,
}

false-true : false ≡ true → ⊥
false-true h = cc

pub none-some : {k : String} → none ≡ some k → ⊥
none-some h = cc

-- What a task listens to.
abbrev pub channel_of : Task → Option String
channel_of (listening channel handler) = some channel
channel_of _ = none

-- Every task that listens is the one that the table has for its channel.
pub record IsListed (c : Client) : Type 0 where
  pub listed :
      (n : ℕ) (k : String) → channel_of (c.tasks n) ≡ some k → get c.pubsub_tasks k ≡ some n

pub channel_of-stopped : (t : Task) → channel_of (stopped t) ≡ none
unfolding stopped
channel_of-stopped unstarted = refl
channel_of-stopped (listening k h) = refl
channel_of-stopped cancelled = refl
channel_of-stopped failed = refl

-- A task ends; the table keeps it.
set_task-IsListed :
    (n : ℕ) (t : Task) (c : Client) → channel_of t ≡ none → IsListed c → IsListed (set_task n t c)
set_task-IsListed n t c e l = record { listed = λ m k h. ground (arith, l.listed m k) }

pub subscribed-IsListed :
    (works : Bool) (k : String) (h : ℕ) (c : Client)
    → get c.pubsub_tasks k ≡ none
    → IsListed c
    → IsListed (subscribed works k h c).1
unfolding subscribed
subscribed-IsListed false k h c e l = record { listed = l.listed }
subscribed-IsListed true k h c e l = record {
  listed =
      λ m j x. ground (arith, l.listed m j, get-insert c.pubsub_tasks k j c.started, eq_iff k j);
}

pub unsubscribed-IsListed :
    (o : Option ℕ) (k : String) (c : Client)
    → get c.pubsub_tasks k ≡ o
    → IsListed c
    → IsListed (unsubscribed o k c).1
unfolding unsubscribed
unsubscribed-IsListed none k c e l = record { listed = l.listed }
unsubscribed-IsListed (some n) k c e l =
    let out = record (set_task n (stopped (c.tasks n)) c) { pubsub_tasks = pop c.pubsub_tasks k } in
    let taken_out : IsListed out = record {
      listed = λ m j x. ground (
        arith,
        channel_of-stopped (c.tasks n),
        l.listed m j,
        get-pop c.pubsub_tasks k j,
        eq_iff k j,
        λ (y : k ≡ j). ap (get c.pubsub_tasks) y,
      );
    } in
    either_way (λ (r : Outcome × Client). IsListed r.1) (has_failed (c.tasks n)) taken_out
      (record { listed = taken_out.listed })

pub delivered-IsListed :
    (t : Task) (n : ℕ) (m : String) (raises : Bool) (c : Client)
    → IsListed c
    → IsListed (delivered t n m raises c)
unfolding delivered
delivered-IsListed (listening k h) n m raises c l =
    let called : Client = record c { handled = c.handled ++ (h, k, m) ∷ [] } in
    let listed : IsListed called = record { listed = l.listed } in
    either_way IsListed raises (set_task-IsListed n failed called refl listed) listed
delivered-IsListed unstarted n m raises c l = l
delivered-IsListed cancelled n m raises c l = l
delivered-IsListed failed n m raises c l = l

pub broken-IsListed : (t : Task) (n : ℕ) (c : Client) → IsListed c → IsListed (broken t n c)
unfolding broken
broken-IsListed (listening k h) n c l = set_task-IsListed n failed c refl l
broken-IsListed unstarted n c l = l
broken-IsListed cancelled n c l = l
broken-IsListed failed n c l = l

-- Cancelling leaves the table, and starts no task.
all_cancelled-kept :
    (d : Dict ℕ) (c : Client)
    → let r = (all_cancelled d c).1 in
      (r.pubsub_tasks ≡ c.pubsub_tasks)
      × ((n : ℕ) (k : String) → channel_of (r.tasks n) ≡ some k → channel_of (c.tasks n) ≡ some k)
unfolding all_cancelled
all_cancelled-kept [] c = (refl, λ n k h. h)
all_cancelled-kept ((j, m) ∷ d) c =
    let (table, tasks) = all_cancelled-kept d (set_task m (stopped (c.tasks m)) c) in
    either_way
      (λ (r : Bool × Client).
        (r.1.pubsub_tasks ≡ c.pubsub_tasks)
        × ((n : ℕ) (k : String)
            → channel_of (r.1.tasks n) ≡ some k
            → channel_of (c.tasks n) ≡ some k))
      (has_failed (c.tasks m)) (refl, λ n k h. h)
      (table, λ n k h. ground (arith, tasks n k h, channel_of-stopped (c.tasks m)))

none_of : (o : Option String) → ((k : String) → o ≢ some k) → o ≡ none
none_of none h = refl
none_of (some k) h = absurd (h k refl)

-- Where no task has failed, every task of the table is cancelled.
all_cancelled-stopped :
    (d : Dict ℕ) (c : Client) (k : String) (n : ℕ)
    → (all_cancelled d c).0 ≡ true
    → get d k ≡ some n
    → channel_of ((all_cancelled d c).1.tasks n) ≡ none
unfolding all_cancelled get
all_cancelled-stopped [] c k n t e = cc
all_cancelled-stopped ((j, m) ∷ d) c k n t e = elim (Bool-cases (has_failed (c.tasks m))) [
  | inl f ↦ absurd (false-true (rw f at t))
  | inr f ↦
      let next = set_task m (stopped (c.tasks m)) c in
      rw f (elim (Bool-cases (j == k)) [
        | inl q ↦
            let same : m ≡ n = ground arith in
            none_of _ (λ i h.
              ground (arith, (all_cancelled-kept d next).1 n i h, channel_of-stopped (c.tasks m)))
        | inr q ↦ all_cancelled-stopped d next k n (rw f at t) (rw q at e)
      ])
]

closed-IsListed :
    (r : Bool × Client) (c : Client)
    → r ≡ all_cancelled c.pubsub_tasks c
    → IsListed c
    → IsListed (closed r).1
unfolding closed
closed-IsListed (false, d) c e l =
    let (table, tasks) = all_cancelled-kept c.pubsub_tasks c in
    let same : d ≡ (all_cancelled c.pubsub_tasks c).1 = ap (λ r. r.1) e in
    subst IsListed (sym same)
      (record { listed = λ n k h. ap (λ t. get t k) table ∙ l.listed n k (tasks n k h) })
closed-IsListed (true, d) c e l =
    let (table, tasks) = all_cancelled-kept c.pubsub_tasks c in
    let same : d ≡ (all_cancelled c.pubsub_tasks c).1 = ap (λ r. r.1) e in
    record {
      listed = λ n k h.
          let runs : channel_of ((all_cancelled c.pubsub_tasks c).1.tasks n) ≡ some k =
            ap (λ t. channel_of (t.tasks n)) (sym same) ∙ h in
          let ended =
            all_cancelled-stopped c.pubsub_tasks c k n (sym (ap (λ r. r.0) e))
              (l.listed n k (tasks n k runs)) in
          absurd (none-some (sym ended ∙ runs));
    }

pub dispose_async-IsListed : (c : Client) → IsListed c → IsListed (dispose_async c).1
unfolding dispose_async
dispose_async-IsListed c l =
    either_way (λ (r : Outcome × Client). IsListed r.1) c.disposed l
      (closed-IsListed (all_cancelled c.pubsub_tasks c) c refl l)

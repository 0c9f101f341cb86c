-- ===== src/Cache/Subscriptions.antt =====
-- The subscriptions of `RedisClient` of blocks_genesis/_cache/redis_client.py: `subscribe_async`,
-- `unsubscribe_async`, `_handle_subscription`, `dispose` and `dispose_async`. Handlers and the tasks that
-- listen are numbered; each call is one step, and so is a message that a task gets.
pub mod Listed
pub mod Heard
pub mod Silent
pub mod Leaked
mod Tests
use blocks_genesis_py.Prelude.{
  ℕ, ◌+◌, String, Bool, true, false, List, [], ◌∷◌, ◌++◌, Option, none, some, nat_eq, if◌then◌else◌,
}
use blocks_genesis_py.Prelude.Dict.{Dict, get, insert, pop}
use blocks_genesis_py.Prelude.Text.{is_empty}

-- A task that listens to a channel for a handler, one that was cancelled, and one that an error ended.
pub data Task : Type 0 where
  unstarted : Task
  listening : (channel : String) (handler : ℕ) → Task
  cancelled : Task
  failed : Task

pub record Client : Type 0 where
  pub subscriptions : Dict ℕ
  pub pubsub_tasks : Dict ℕ
  pub disposed : Bool
  pub started : ℕ
  pub tasks : ℕ → Task
  -- the handlers that were called, with the channel and the message
  pub handled : List (ℕ × String × String)

pub data Outcome : Type 0 where
  returned : Outcome
  value_error : Outcome
  redis_error : Outcome
  attribute_error : Outcome

abbrev pub set_task : ℕ → Task → Client → Client
set_task n t c = record c { tasks = λ k. if nat_eq n k then t else c.tasks k }

-- `_subscriptions[channel] = handler`, then the task; a Redis that refuses takes the handler out.
pub subscribed : Bool → String → ℕ → Client → Outcome × Client
subscribed works channel handler c =
    if works
    then (
      returned,
      record (set_task c.started (listening channel handler) c) {
        subscriptions = insert c.subscriptions channel handler;
        pubsub_tasks = insert c.pubsub_tasks channel c.started;
        started = c.started + 1;
      },
    )
    else (
      redis_error,
      record c { subscriptions = pop (insert c.subscriptions channel handler) channel },
    )

unfoldable pub subscribe_async : Bool → String → Option ℕ → Client → Outcome × Client
unfolding subscribed
subscribe_async works channel none c = (value_error, c)
subscribe_async works channel (some handler) c =
    if is_empty channel then (value_error, c) else subscribed works channel handler c

-- A task that has not failed is cancelled.
pub stopped : Task → Task
stopped failed = failed
stopped _ = cancelled

has_failed : Task → Bool
has_failed failed = true
has_failed _ = false

-- The task of the table, if any, is taken out and cancelled. The error of one that has failed is raised
-- where it is awaited, before the handler is taken out.
pub unsubscribed : Option ℕ → String → Client → Outcome × Client
unfolding stopped has_failed
unsubscribed none channel c = (returned, record c { subscriptions = pop c.subscriptions channel })
unsubscribed (some n) channel c =
    let out = record (set_task n (stopped (c.tasks n)) c) {
      pubsub_tasks = pop c.pubsub_tasks channel;
    } in
    if has_failed (c.tasks n)
    then (attribute_error, out)
    else (returned, record out { subscriptions = pop c.subscriptions channel })

unfoldable pub unsubscribe_async : String → Client → Outcome × Client
unfolding unsubscribed
unsubscribe_async channel c =
    if is_empty channel
    then (value_error, c)
    else unsubscribed (get c.pubsub_tasks channel) channel c

-- A handler that raises ends its task: the logging of its error raises, and so does that of this error.
pub delivered : Task → ℕ → String → Bool → Client → Client
delivered (listening channel handler) n message raises c =
    let called : Client = record c { handled = c.handled ++ (handler, channel, message) ∷ [] } in
    if raises then set_task n failed called else called
delivered unstarted n message raises c = c
delivered cancelled n message raises c = c
delivered failed n message raises c = c

-- A listening task whose connection fails ends in the same way.
pub broken : Task → ℕ → Client → Client
broken (listening channel handler) n c = set_task n failed c
broken unstarted n c = c
broken cancelled n c = c
broken failed n c = c

-- `dispose`
unfoldable pub dispose : Client → Client
dispose c = if c.disposed then c else record c { subscriptions = []; disposed = true }

-- The tasks are cancelled one by one, up to one that has failed, whose error is raised.
all_cancelled : Dict ℕ → Client → Bool × Client
unfolding stopped has_failed
all_cancelled [] c = (true, c)
all_cancelled ((channel, n) ∷ rest) c =
    let others = all_cancelled rest (set_task n (stopped (c.tasks n)) c) in
    if has_failed (c.tasks n) then (false, c) else others

closed : Bool × Client → Outcome × Client
closed (false, c) = (attribute_error, c)
closed (true, c) = (returned, record c { pubsub_tasks = []; subscriptions = []; disposed = true })

unfoldable pub dispose_async : Client → Outcome × Client
unfolding all_cancelled closed
dispose_async c = if c.disposed then (returned, c) else closed (all_cancelled c.pubsub_tasks c)

pub data Event : Type 0 where
  subscribes : (works : Bool) (channel : String) (handler : Option ℕ) → Event
  unsubscribes : (channel : String) → Event
  -- a message for a task, or the end of its connection
  delivers : (task : ℕ) (message : String) (raises : Bool) → Event
  breaks : (task : ℕ) → Event
  disposes : Event
  disposes_async : Event

unfoldable pub step : Event → Client → Client
unfolding subscribe_async unsubscribe_async delivered broken dispose dispose_async
step (subscribes works channel handler) c = (subscribe_async works channel handler c).1
step (unsubscribes channel) c = (unsubscribe_async channel c).1
step (delivers n message raises) c = delivered (c.tasks n) n message raises c
step (breaks n) c = broken (c.tasks n) n c
step disposes c = dispose c
step disposes_async c = (dispose_async c).1

unfoldable pub run : List Event → Client → Client
unfolding step
run [] c = c
run (e ∷ es) c = run es (step e c)

abbrev pub new_client : Client
new_client = record {
  subscriptions = [];
  pubsub_tasks = [];
  disposed = false;
  started = 0;
  tasks = λ n. unstarted;
  handled = [];
}

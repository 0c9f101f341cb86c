-- ===== src/Messaging/Senders.antt =====
-- The senders of blocks_genesis/_message/azure/azure_message_client.py, which all callers share: from
-- `_initialize_senders` to `_replace_sender`, and the end of `_send_to_azure_bus_async`. A caller runs
-- from one `await` to the next as one event; senders are numbered as they are built.
pub mod Owned
pub mod Driven
mod Tests
use blocks_genesis_py.Prelude.{
  ℕ, ◌+◌, String, Bool, true, false, List, [], ◌∷◌, ◌++◌, Option, none, some, any, nat_eq, ◌==◌,
  if◌then◌else◌,
}
use blocks_genesis_py.Prelude.Dict.{Dict, get, insert, pop}

pub data Kind : Type 0 where
  queue_sender : Kind
  topic_sender : Kind

pub record Sender : Type 0 where
  pub number : ℕ
  pub kind : Kind

-- Where a call of `_send_to_azure_bus_async` stands, from the lock of its destination on: in the first
-- send, in the close of the sender that has failed, in the second send, or at its end, where it has
-- returned or raised.
pub data Caller : Type 0 where
  idle : Caller
  waiting : (name : String) → Caller
  sending : (name : String) (sender : Sender) → Caller
  closing : (name : String) (stale : Option Sender) → Caller
  resending : (name : String) (stale : Option Sender) (sender : Sender) → Caller
  returned : (name : String) (is_sent : Bool) → Caller

pub record Client : Type 0 where
  pub senders : Dict Sender
  -- the locks that are held, with the caller that holds them
  pub held : Dict ℕ
  pub built : ℕ
  pub callers : ℕ → Caller

abbrev pub put_caller : ℕ → Caller → Client → Client
put_caller i c s = record s { callers = λ j. if nat_eq i j then c else s.callers j }

pub data Event : Type 0 where
  calls : (caller : ℕ) (name : String) → Event
  wakes : (caller : ℕ) → Event
  answers : (caller : ℕ) (is_sent : Bool) → Event
  closes : (caller : ℕ) → Event

module _ (queues topics : List String) where
  -- Anything that is not named as a queue is a topic.
  unfoldable pub kind_of : String → Kind
  kind_of name = if any (λ q. q == name) queues then queue_sender else topic_sender

  -- `_build_sender`
  unfoldable pub build_sender : String → Client → Sender × Client
  unfolding kind_of
  build_sender name s =
      (record { number = s.built; kind = kind_of name }, record s { built = s.built + 1 })

  stored : String → Sender × Client → Sender × Client
  stored name (sender, s) = (sender, record s { senders = insert s.senders name sender })

  get_or_build : String → Option Sender → Client → Sender × Client
  unfolding stored build_sender
  get_or_build name none s = stored name (build_sender name s)
  get_or_build name (some sender) s = (sender, s)

  -- `_get_sender`
  unfoldable pub get_sender : String → Client → Sender × Client
  unfolding get_or_build
  get_sender name s = get_or_build name (get s.senders name) s

  -- `_initialize_senders`, of a new client.
  initialize_from : List String → Client → Client
  unfolding stored build_sender
  initialize_from [] s = s
  initialize_from (name ∷ names) s = initialize_from names (stored name (build_sender name s)).1

  unfoldable pub initialize_senders : Client → Client
  unfolding initialize_from
  initialize_senders s = initialize_from (queues ++ topics) s

  locked : ℕ → String → Client → Client
  locked i name s = record s { held = insert s.held name i }

  released : String → Client → Client
  released name s = record s { held = pop s.held name }

  -- Under the lock: the first send is started.
  entered : ℕ → String → Client → Client
  unfolding get_sender locked
  entered i name s =
      let (sender, t) = get_sender name (locked i name s) in put_caller i (sending name sender) t

  -- A lock that is held is waited for.
  admitted : ℕ → String → Option ℕ → Client → Client
  unfolding entered
  admitted i name none s = entered i name s
  admitted i name (some _) s = put_caller i (waiting name) s

  -- `_replace_sender`, up to the close of the stale sender.
  replaced : ℕ → String → Client → Client
  replaced i name s =
      put_caller i (closing name (get s.senders name)) (record s { senders = pop s.senders name })

  -- A send has ended, well or not.
  answered : ℕ → Bool → Caller → Client → Client
  unfolding replaced released
  answered i is_sent (sending name sender) s =
      if is_sent then put_caller i (returned name true) (released name s) else replaced i name s
  answered i is_sent (resending name stale sender) s =
      put_caller i (returned name is_sent) (released name s)
  answered i is_sent idle s = s
  answered i is_sent (waiting name) s = s
  answered i is_sent (closing name stale) s = s
  answered i is_sent (returned name r) s = s

  -- The close has ended, well or not.
  closed : ℕ → Caller → Client → Client
  unfolding get_sender
  closed i (closing name stale) s =
      let (sender, t) = get_sender name s in put_caller i (resending name stale sender) t
  closed i idle s = s
  closed i (waiting name) s = s
  closed i (sending name sender) s = s
  closed i (resending name stale sender) s = s
  closed i (returned name r) s = s

  called : ℕ → String → Caller → Client → Client
  unfolding admitted
  called i name idle s = admitted i name (get s.held name) s
  called i name (returned _ r) s = admitted i name (get s.held name) s
  called i name (waiting _) s = s
  called i name (sending _ sender) s = s
  called i name (closing _ stale) s = s
  called i name (resending _ stale sender) s = s

  woken : ℕ → Caller → Client → Client
  unfolding admitted
  woken i (waiting name) s = admitted i name (get s.held name) s
  woken i idle s = s
  woken i (sending name sender) s = s
  woken i (closing name stale) s = s
  woken i (resending name stale sender) s = s
  woken i (returned name r) s = s

  unfoldable pub step : Event → Client → Client
  unfolding called woken answered closed
  step (calls i name) s = called i name (s.callers i) s
  step (wakes i) s = woken i (s.callers i) s
  step (answers i is_sent) s = answered i is_sent (s.callers i) s
  step (closes i) s = closed i (s.callers i) s

  unfoldable pub run : List Event → Client → Client
  unfolding step
  run [] s = s
  run (e ∷ es) s = run es (step e s)

  unfoldable pub new_client : Client
  unfolding initialize_senders
  new_client =
      initialize_senders (record { senders = []; held = []; built = 0; callers = λ i. idle })

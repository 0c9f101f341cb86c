-- ===== src/Messaging/Rabbit.antt =====
-- `RabbitMessageWorker._process_message` of
-- blocks_genesis/_message/rabbit_mq/rabbit_message_worker.py.
pub mod Settled
pub mod Service
use blocks_genesis_py.Prelude.{
  String, Bool, true, false, List, [], ◌∷◌, Option, none, some, if◌then◌else◌,
}
use blocks_genesis_py.Prelude.Dict.{Dict, get}
use blocks_genesis_py.Messaging.Context.{
  Surroundings, Worker, acked, act, given_grant, restored, baggage_reads, run_handler,
  release_delegation_grant, cleared,
}

-- The headers and the body of a message, as they are decoded: headers are UTF-8, and a body that is
-- not is `none`. The broker may refuse the acknowledgement.
pub record IncomingMessage : Type 0 where
  pub security_context : String
  pub baggage : String
  pub delegation_grant : Option String
  pub body : Option String
  pub ack_works : Bool

-- `_decode(headers.get(name, default))`
header_or : Dict String → String → String → String
header_or headers name default = elim (get headers name) [ none ↦ default | some v ↦ v ]

unfoldable pub incoming : Dict String → Option String → Bool → IncomingMessage
unfolding header_or
incoming headers body ack_works = record {
  security_context = header_or headers "SecurityContext" "";
  baggage = header_or headers "Baggage" "{}";
  delegation_grant = get headers "DelegationGrant";
  body = body;
  ack_works = ack_works;
}

released_if : Surroundings → Bool → Option String → Worker → Worker
unfolding release_delegation_grant
released_if s false grant w = w
released_if s true grant w = release_delegation_grant s grant w

-- The `finally` clause: whether it returns.
settled : Surroundings → IncomingMessage → Bool × Worker → Bool × Worker
unfolding released_if cleared given_grant
settled s m (success, w) =
    if m.ack_works
    then (true, cleared (released_if s success (given_grant m.delegation_grant) (act acked w)))
    else (false, w)

decoded : Surroundings → IncomingMessage → Option String → Worker → Bool × Worker
unfolding settled run_handler
decoded s m none w = (false, w)
decoded s m (some body) w = settled s m (run_handler s body w)

-- The worker once it has restored what a message carries.
abbrev pub started : Surroundings → IncomingMessage → Worker → Worker
started s m w = restored s m.security_context (given_grant m.delegation_grant) w

-- Whether `_process_message` returns, and the worker after.
unfoldable pub process_message : Surroundings → IncomingMessage → Worker → Bool × Worker
unfolding decoded restored baggage_reads given_grant
process_message s m w =
    if baggage_reads (s.env.json_loads m.baggage)
    then decoded s m m.body (started s m w)
    else (false, started s m w)

-- ===== src/Messaging/Azure.antt =====
-- `AzureMessageWorker` of blocks_genesis/_message/azure/azure_message_worker.py: the handling of one
-- message, and what a receiver does around it.
pub mod Settled
pub mod Renewal
use blocks_genesis_py.Prelude.{
  String, Bool, true, false, List, [], ◌∷◌, Option, none, some, if◌then◌else◌,
}
use blocks_genesis_py.Prelude.Dict.{Dict, insert, pop}
use blocks_genesis_py.Messaging.Context.{
  Surroundings, Worker, completed, abandoned, act, given_grant, restored, baggage_reads,
  run_handler, release_delegation_grant, cleared,
}

-- A message with the properties and the body as they are decoded: a body that is not UTF-8 is `none`, an
-- absent one is the text of an empty object. The broker may refuse to complete or to abandon it, also
-- when it is abandoned for the second time.
pub record ReceivedMessage : Type 0 where
  pub message_id : String
  pub security_context : String
  pub baggage : String
  pub delegation_grant : Option String
  pub body : Option String
  pub complete_works : Bool
  pub abandon_works : Bool
  pub abandon_again_works : Bool

-- The worker with its active renewals: whether each was told to stop.
pub record Receiver : Type 0 where
  pub worker : Worker
  pub active_message_renewals : Dict Bool

completed_if : Surroundings → ReceivedMessage → Bool × Worker → Bool × Worker
unfolding release_delegation_grant given_grant
completed_if s m (false, w) = (false, w)
completed_if s m (true, w) =
    if m.complete_works
    then (true, release_delegation_grant s (given_grant m.delegation_grant) (act completed w))
    else (false, w)

decoded : Surroundings → ReceivedMessage → Option String → Worker → Bool × Worker
unfolding completed_if run_handler
decoded s m none w = (false, w)
decoded s m (some body) w = completed_if s m (run_handler s body w)

-- The `try` clause: whether nothing was raised.
tried : Surroundings → ReceivedMessage → Worker → Bool × Worker
unfolding decoded baggage_reads
tried s m w =
    if baggage_reads (s.env.json_loads m.baggage) then decoded s m m.body w else (false, w)

-- The `except` clause.
abandoned_if : Bool → Bool × Worker → Bool × Worker
abandoned_if works (true, w) = (true, w)
abandoned_if works (false, w) = (false, if works then act abandoned w else w)

-- Whether `message_handler` returns, and the receiver after.
unfoldable pub message_handler : Surroundings → ReceivedMessage → Receiver → Bool × Receiver
unfolding tried abandoned_if restored given_grant cleared
message_handler s m r =
    let started = restored s m.security_context (given_grant m.delegation_grant) r.worker in
    let ended = abandoned_if m.abandon_works (tried s m started) in
    let renewals = insert r.active_message_renewals m.message_id false in
    (
      ended.0,
      record { worker = cleared ended.1; active_message_renewals = pop renewals m.message_id },
    )

abandoned_again : Bool → Bool × Receiver → Receiver
unfolding abandoned_if
abandoned_again works (returned, r) = record r {
  worker = (abandoned_if works (returned, r.worker)).1;
}

-- `process_receiver`: a message whose handling has raised is abandoned once more.
unfoldable pub process_receiver : Surroundings → List ReceivedMessage → Receiver → Receiver
unfolding message_handler abandoned_again
process_receiver s [] r = r
process_receiver s (m ∷ ms) r =
    process_receiver s ms (abandoned_again m.abandon_again_works (message_handler s m r))

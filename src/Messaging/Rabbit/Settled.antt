-- ===== src/Messaging/Rabbit/Settled.antt =====
-- How a RabbitMQ message is settled.
use blocks_genesis_py.Prelude.{
  String, Bool, true, false, List, ◌∷◌, Option, none, some, ◌≡◌, refl, ap,
}
use blocks_genesis_py.Delegation.Flow.{clear_grant}
use blocks_genesis_py.Messaging.Context.{
  Surroundings, Action, handled, acked, released, Worker, act, given_grant, restored, baggage_reads,
  run_handler, release_delegation_grant, cleared,
}
use blocks_genesis_py.Messaging.Context.Ordered.{Ran, not_run, ran, run_handler-Ran}
use blocks_genesis_py.Messaging.Consumer.{EventMessage, event_of}
use blocks_genesis_py.Messaging.Rabbit.{
  IncomingMessage, released_if, settled, decoded, started, process_message,
}

-- The actions of one message that is settled, by what its handler did and the grant that it carried.
pub data Acked (grant : Option String) (old : List Action) : List Action → Type 0 where
  unhandled : Acked grant old (acked ∷ old)
  failed :
      (event_type body : String) → Acked grant old (acked ∷ handled event_type body false ∷ old)
  succeeded :
      (event_type body : String)
      → grant ≡ none
      → Acked grant old (acked ∷ handled event_type body true ∷ old)
  freed :
      (event_type body id : String)
      → grant ≡ some id
      → Acked grant old (released id ∷ acked ∷ handled event_type body true ∷ old)

module _ (s : Surroundings) (m : IncomingMessage) where
  released_if-Acked :
      (event : Option EventMessage) (grant : Option String) (old : List Action) (r : Bool × Worker)
      → Ran event old r
      → Acked grant old (released_if s r.0 grant (act acked r.1)).trace
  unfolding released_if release_delegation_grant
  released_if-Acked event grant old _ (not_run w n e) = rw e unhandled
  released_if-Acked event grant old _ (ran false w v q e) = rw e (failed v.type v.body)
  released_if-Acked event none old _ (ran true w v q e) = rw e (succeeded v.type v.body refl)
  released_if-Acked event (some id) old _ (ran true w v q e) = rw e (freed v.type v.body id refl)

  -- A settled message's return, its cleared ambient values, and its actions.
  pub record Settled (old : List Action) (r : Bool × Worker) : Type 0 where
    pub returns : r.0 ≡ true
    pub no_context : r.1.flow.context ≡ none
    pub no_grant : r.1.flow.grant ≡ none
    pub actions : Acked (given_grant m.delegation_grant) old r.1.trace

  settled-Settled :
      (event : Option EventMessage) (old : List Action) (r : Bool × Worker)
      → m.ack_works ≡ true
      → Ran event old r
      → Settled old (settled s m r)
  unfolding settled cleared clear_grant
  settled-Settled event old r up h = simp up (record {
    returns = refl;
    no_context = refl;
    no_grant = refl;
    actions = released_if-Acked event (given_grant m.delegation_grant) old r h;
  })

  -- A message whose body and baggage can be read, and which the broker lets be acknowledged, is
  -- acknowledged exactly once, whatever its handler does; its grant is deleted after that, only if the
  -- handler has succeeded; and no context and no grant is left.
  pub process_message-Settled :
      (body : String) (w : Worker)
      → m.body ≡ some body
      → baggage_reads (s.env.json_loads m.baggage) ≡ true
      → m.ack_works ≡ true
      → Settled w.trace (process_message s m w)
  unfolding process_message decoded restored
  process_message-Settled body w readable baggage up =
      let done = ap (λ q. decoded s m q (started s m w)) readable in
      simp (baggage, done)
        (settled-Settled (event_of (s.env.json_loads body)) w.trace
          (run_handler s body (started s m w)) up (run_handler-Ran s body (started s m w)))

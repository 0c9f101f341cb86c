-- ===== src/Messaging/Azure/Settled.antt =====
-- How a Service Bus message is settled.
use blocks_genesis_py.Prelude.{
  String, Bool, true, false, List, [], ◌∷◌, Option, none, some, ◌≡◌, refl, ◌∙◌, inl, inr, eq_refl,
  Bool-cases,
}
use blocks_genesis_py.Prelude.Dict.{get, insert, get-pop}
use blocks_genesis_py.Delegation.Flow.{clear_grant}
use blocks_genesis_py.Messaging.Context.{
  Surroundings, Action, handled, completed, abandoned, released, Worker, act, given_grant, restored,
  baggage_reads, run_handler, release_delegation_grant, cleared,
}
use blocks_genesis_py.Messaging.Context.Ordered.{is_ordered, Ran, not_run, ran, run_handler-Ran}
use blocks_genesis_py.Messaging.Consumer.{event_of}
use blocks_genesis_py.Messaging.Azure.{
  ReceivedMessage, Receiver, completed_if, decoded, tried, abandoned_if, message_handler,
  abandoned_again, process_receiver,
}

-- A message that no handler gets: its baggage or its body cannot be read, or the body is no event.
pub data IsUnreadable (s : Surroundings) (m : ReceivedMessage) : Type 0 where
  no_baggage : baggage_reads (s.env.json_loads m.baggage) ≡ false → IsUnreadable s m
  no_body : m.body ≡ none → IsUnreadable s m
  no_event :
      (body : String)
      → m.body ≡ some body
      → event_of (s.env.json_loads body) ≡ none
      → IsUnreadable s m

-- The actions of a message that is not completed, before it is abandoned: no handler got it, or its
-- handler has failed, or the broker has refused to complete it.
pub data Attempted (s : Surroundings) (m : ReceivedMessage) (old : List Action)
    : List Action → Type 0 where
  unhandled : IsUnreadable s m → Attempted s m old old
  failed : (event_type body : String) → Attempted s m old (handled event_type body false ∷ old)
  refused :
      (event_type body : String)
      → m.complete_works ≡ false
      → Attempted s m old (handled event_type body true ∷ old)

-- A message that is completed, by the grant that it carried.
pub data Completed (grant : Option String) (old : List Action) : List Action → Type 0 where
  done :
      (event_type body : String)
      → grant ≡ none
      → Completed grant old (completed ∷ handled event_type body true ∷ old)
  freed :
      (event_type body id : String)
      → grant ≡ some id
      → Completed grant old (released id ∷ completed ∷ handled event_type body true ∷ old)

-- What the `try` clause leaves.
data Tried (s : Surroundings) (m : ReceivedMessage) (grant : Option String) (old : List Action)
    : Bool × Worker → Type 0 where
  passed : (w : Worker) → Completed grant old w.trace → Tried s m grant old (true, w)
  raised : (w : Worker) → Attempted s m old w.trace → Tried s m grant old (false, w)

-- Whether a message's handling returned, and its actions: it is completed, or it is given back to the
-- broker, or left exactly where the broker refuses to take it back.
pub data Settlement (s : Surroundings) (m : ReceivedMessage) (grant : Option String)
    (old : List Action) : Bool → List Action → Type 0 where
  settled : (new : List Action) → Completed grant old new → Settlement s m grant old true new
  given_up :
      (new : List Action)
      → Attempted s m old new
      → m.abandon_works ≡ true
      → Settlement s m grant old false (abandoned ∷ new)
  left :
      (new : List Action)
      → Attempted s m old new
      → m.abandon_works ≡ false
      → Settlement s m grant old false new

module _ (s : Surroundings) (m : ReceivedMessage) where
  released-Completed :
      (grant : Option String) (old : List Action) (w : Worker) (t b : String)
      → w.trace ≡ handled t b true ∷ old
      → Completed grant old (release_delegation_grant s grant (act completed w)).trace
  unfolding release_delegation_grant
  released-Completed none old w t b e = rw e (done t b refl)
  released-Completed (some id) old w t b e = rw e (freed t b id refl)

  completed_if-Tried :
      (body : String) (old : List Action) (r : Bool × Worker)
      → m.body ≡ some body
      → Ran (event_of (s.env.json_loads body)) old r
      → Tried s m (given_grant m.delegation_grant) old (completed_if s m r)
  unfolding completed_if
  completed_if-Tried body old _ has (not_run w n e) =
      raised w (rw e (unhandled (no_event body has n)))
  completed_if-Tried body old _ has (ran false w v q e) = raised w (rw e (failed v.type v.body))
  completed_if-Tried body old _ has (ran true w v q e) = elim (Bool-cases m.complete_works) [
    | inl up ↦
        simp up
          (passed _ (released-Completed (given_grant m.delegation_grant) old w v.type v.body e))
    | inr down ↦ simp down (raised w (rw e (refused v.type v.body down)))
  ]

  decoded-Tried :
      (body : Option String) (w : Worker)
      → m.body ≡ body
      → Tried s m (given_grant m.delegation_grant) w.trace (decoded s m body w)
  unfolding decoded
  decoded-Tried none w has = raised w (unhandled (no_body has))
  decoded-Tried (some body) w has =
      completed_if-Tried body w.trace (run_handler s body w) has (run_handler-Ran s body w)

  tried-Tried : (w : Worker) → Tried s m (given_grant m.delegation_grant) w.trace (tried s m w)
  unfolding tried
  tried-Tried w = elim (Bool-cases (baggage_reads (s.env.json_loads m.baggage))) [
    | inl e ↦ simp e (decoded-Tried m.body w refl)
    | inr e ↦ simp e (raised w (unhandled (no_baggage e)))
  ]

  abandoned_if-Settlement :
      (grant : Option String) (old : List Action) (works : Bool) (r : Bool × Worker)
      → m.abandon_works ≡ works
      → Tried s m grant old r
      → Settlement s m grant old (abandoned_if works r).0 (abandoned_if works r).1.trace
  unfolding abandoned_if
  abandoned_if-Settlement grant old works _ e (passed w h) = settled w.trace h
  abandoned_if-Settlement grant old true _ e (raised w h) = given_up w.trace h e
  abandoned_if-Settlement grant old false _ e (raised w h) = left w.trace h e

  pub message_handler-Settlement :
      (r : Receiver)
      → Settlement s m
          (given_grant m.delegation_grant)
          r.worker.trace
          (message_handler s m r).0
          (message_handler s m r).1.worker.trace
  unfolding message_handler cleared restored
  message_handler-Settlement r =
      let started = restored s m.security_context (given_grant m.delegation_grant) r.worker in
      abandoned_if-Settlement (given_grant m.delegation_grant) r.worker.trace m.abandon_works
        (tried s m started) refl (tried-Tried started)

  -- However the handling of a message ends, no context, no grant and no renewal of the message is left.
  pub message_handler_clears :
      (r : Receiver)
      → ((message_handler s m r).1.worker.flow.context ≡ none)
        × ((message_handler s m r).1.worker.flow.grant ≡ none)
        × (get (message_handler s m r).1.active_message_renewals m.message_id ≡ none)
  unfolding message_handler cleared clear_grant
  message_handler_clears r = (
    refl,
    refl,
    get-pop (insert r.active_message_renewals m.message_id false) m.message_id m.message_id
        ∙ rw (eq_refl m.message_id) refl,
  )

  Attempted-ordered :
      (old new : List Action)
      → Attempted s m old new
      → is_ordered old ≡ true
      → is_ordered new ≡ true
  unfolding is_ordered
  Attempted-ordered old _ (unhandled u) o = o
  Attempted-ordered old _ (failed t b) o = o
  Attempted-ordered old _ (refused t b e) o = o

  Settlement-ordered :
      (grant : Option String) (old new : List Action) (returned : Bool)
      → Settlement s m grant old returned new
      → is_ordered old ≡ true
      → is_ordered new ≡ true
  unfolding is_ordered
  Settlement-ordered grant old _ _ (settled _ (done t b e)) o = o
  Settlement-ordered grant old _ _ (settled _ (freed t b id e)) o = o
  Settlement-ordered grant old _ _ (given_up new h e) o = Attempted-ordered old new h o
  Settlement-ordered grant old _ _ (left new h e) o = Attempted-ordered old new h o

  abandoned_again-ordered :
      (works returned : Bool) (r : Receiver)
      → is_ordered r.worker.trace ≡ true
      → is_ordered (abandoned_again works (returned, r)).worker.trace ≡ true
  unfolding abandoned_again abandoned_if is_ordered
  abandoned_again-ordered works true r o = o
  abandoned_again-ordered true false r o = o
  abandoned_again-ordered false false r o = o

-- Over any messages, whatever they hold and their handlers do, no grant is deleted but right after its
-- message was completed, which its handler's success came right before.
pub process_receiver-ordered :
    (s : Surroundings) (ms : List ReceivedMessage) (r : Receiver)
    → is_ordered r.worker.trace ≡ true
    → is_ordered (process_receiver s ms r).worker.trace ≡ true
unfolding process_receiver
process_receiver-ordered s [] r o = o
process_receiver-ordered s (m ∷ ms) r o =
    let h = message_handler s m r in
    process_receiver-ordered s ms (abandoned_again m.abandon_again_works h) (
      abandoned_again-ordered s m m.abandon_again_works h.0 h.1 (
        Settlement-ordered s m (given_grant m.delegation_grant) r.worker.trace h.1.worker.trace h.0
          (message_handler-Settlement s m r) o))

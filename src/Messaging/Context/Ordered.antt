-- ===== src/Messaging/Context/Ordered.antt =====
-- The order of a worker's actions.
use blocks_genesis_py.Prelude.{
  String, Bool, true, false, List, [], ◌∷◌, Option, none, some, ◌≡◌, refl,
}
use blocks_genesis_py.Messaging.Consumer.{EventMessage, event_of}
use blocks_genesis_py.Messaging.Context.{
  Surroundings, Action, handled, acked, completed, abandoned, released, Worker, dispatched,
  run_handler,
}

-- Newest first: a grant is deleted only right after the message is settled as done, and that right
-- after its handler has succeeded.
unfoldable pub is_ordered : List Action → Bool
is_ordered [] = true
is_ordered (released d ∷ acked ∷ handled t b true ∷ rest) = is_ordered rest
is_ordered (released d ∷ completed ∷ handled t b true ∷ rest) = is_ordered rest
is_ordered (released d ∷ rest) = false
is_ordered (acked ∷ rest) = is_ordered rest
is_ordered (completed ∷ rest) = is_ordered rest
is_ordered (abandoned ∷ rest) = is_ordered rest
is_ordered (handled t b success ∷ rest) = is_ordered rest

-- What running the handler adds to the actions, by the event that the body is read as, if any.
pub data Ran (event : Option EventMessage) (old : List Action) : Bool × Worker → Type 0 where
  not_run : (w : Worker) → event ≡ none → w.trace ≡ old → Ran event old (false, w)
  ran :
      (success : Bool) (w : Worker) (v : EventMessage)
      → event ≡ some v
      → w.trace ≡ handled v.type v.body success ∷ old
      → Ran event old (success, w)

dispatched-Ran :
    (s : Surroundings) (e : Option EventMessage) (w : Worker) → Ran e w.trace (dispatched s e w)
unfolding dispatched
dispatched-Ran s none w = not_run w refl refl
dispatched-Ran s (some event) w = ran _ _ event refl refl

pub run_handler-Ran :
    (s : Surroundings) (body : String) (w : Worker)
    → Ran (event_of (s.env.json_loads body)) w.trace (run_handler s body w)
unfolding run_handler
run_handler-Ran s body w = dispatched-Ran s (event_of (s.env.json_loads body)) w

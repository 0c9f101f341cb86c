-- ===== src/Messaging/Consumer/Registered.antt =====
-- Which handlers are found, and which of them can succeed.
use blocks_genesis_py.Prelude.{
  String, Bool, true, false, Option, none, some, ◌==◌, if◌then◌else◌, ◌≡◌, refl, sym, ap, ◌∙◌, inl,
  inr, Bool-cases, Option-cases, arith,
}
use blocks_genesis_py.Prelude.Dict.{Dict, get, insert, get-insert}
use blocks_genesis_py.Prelude.Result.{ok, err}
use blocks_genesis_py.Prelude.Text.{is_empty}
use blocks_genesis_py.Json.{Value}
use blocks_genesis_py.Delegation.Flow.{Flow}
use blocks_genesis_py.Messaging.Consumer.{
  Handler, coroutine_function, handler_class, handler_object, not_a_handler, register, resolve,
  value_error, given_to, awaited, process_message,
}

resolve-insert :
    (t u : String) (h : Handler) (hs : Dict Handler)
    → resolve u (insert hs t h) ≡ (if t == u then ok h else resolve u hs)
unfolding resolve
resolve-insert t u h hs = ground (arith, get-insert hs t u h)

-- A registration that is accepted is for an event type that had no handler, and afterwards that type
-- has the new one and every other type the one that it had.
pub resolve-register :
    (event_type other : String) (handler : Handler) (handlers after : Dict Handler)
    → register event_type handler handlers ≡ ok after
    → (get handlers event_type ≡ none)
      × (resolve other after ≡ (if event_type == other then ok handler else resolve other handlers))
unfolding register
resolve-register t u h hs after e = elim (Bool-cases (is_empty t)) [
  | inl a ↦ ground arith
  | inr a ↦ elim (Option-cases (get hs t)) [
    | inr (x, b) ↦ ground arith
    | inl b ↦
        let same : insert hs t h ≡ after = ground arith in
        (b, ap (resolve u) (sym same) ∙ resolve-insert t u h hs)
  ]
]

awaited-returns :
    (h : Handler) (body : Option Value) (flow : Flow)
    → (awaited h body flow).0 ≡ true
    → (f : Value → Flow → Bool × Flow) × (v : Value) × (h ≡ coroutine_function f)
      × (body ≡ some v)
      × (awaited h body flow ≡ f v flow)
unfolding awaited
awaited-returns (coroutine_function f) (some v) flow e = (f, v, refl, refl, refl)
awaited-returns (coroutine_function f) none flow e = cc
awaited-returns handler_class body flow e = cc
awaited-returns handler_object body flow e = cc
awaited-returns not_a_handler body flow e = cc

process_message_found :
    (hs : Dict Handler) (t : String) (body : Option Value) (flow : Flow) (h : Handler)
    → get hs t ≡ some h
    → process_message hs t body flow ≡ awaited h body flow
unfolding process_message resolve given_to
process_message_found hs t body flow h e =
    let resolved : resolve t hs ≡ ok h = ground arith in ap (λ r. given_to r body flow) resolved

process_message_missed :
    (hs : Dict Handler) (t : String) (body : Option Value) (flow : Flow)
    → get hs t ≡ none
    → process_message hs t body flow ≡ (false, flow)
unfolding process_message resolve given_to
process_message_missed hs t body flow e =
    let resolved : resolve t hs ≡ err value_error = ground arith in
    ap (λ r. given_to r body flow) resolved

-- A message is processed without an error only by a coroutine function that is registered for its
-- type, given the decoded body; a registered class or an object with `handle` never succeeds.
pub process_message-returns :
    (handlers : Dict Handler) (event_type : String) (body : Option Value) (flow : Flow)
    → (process_message handlers event_type body flow).0 ≡ true
    → (f : Value → Flow → Bool × Flow) × (v : Value) × (get handlers event_type
        ≡ some (coroutine_function f))
      × (body ≡ some v)
      × (process_message handlers event_type body flow ≡ f v flow)
process_message-returns hs t body flow e = elim (Option-cases (get hs t)) [
  | inl g ↦
      absurd
        (ground (arith, ap (λ (r : Bool × Flow). r.0) (process_message_missed hs t body flow g)))
  | inr (h, g) ↦
      let found = process_message_found hs t body flow h g in
      let (f, v, a, b, c) =
        awaited-returns h body flow (sym (ap (λ (r : Bool × Flow). r.0) found) ∙ e) in
      (f, v, g ∙ ap (λ x. some x) a, b, found ∙ c)
]

-- ===== src/Telemetry/Traces/Bounded.antt =====
-- The bound of the traces' queue.
use blocks_genesis_py.Prelude.{
  ℕ, ◌+◌, ◌≤◌, ◌<◌, String, Bool, false, List, [], ◌∷◌, Option, none, some, not, ◌&&◌, nat_eq, leb,
  length, length-append, ltb, ◌≡◌, refl, ap, either_way, either_branch, arith,
}
use blocks_genesis_py.Telemetry.Traces.Document.{Span, entry_of}
use blocks_genesis_py.Telemetry.Traces.{
  Entry, size, Shared, Position, at_test, at_get, filling, at_flush, draining, taking,
  at_last_flush, done, Taker, taken, flushed, turn, Exporter, is_full, queued, put, started,
  draining_from, Event, exports, puts, stops, flushes, works, drains, step, run, new_exporter,
}

-- No turn of a thread makes the queue longer.
abbrev Shorter : Shared → Taker × Shared → Type 0
Shorter s r = length r.1.queue ≤ length s.queue

taken-Shorter :
    (q : List Entry) (next else_next : Position) (t : Taker) (s : Shared)
    → s.queue ≡ q
    → Shorter s (taken q next else_next t s)
unfolding taken
taken-Shorter [] next else_next t s e = omega arith
taken-Shorter (x ∷ q) next else_next t s e = omega (arith, ap length e)

turn-Shorter :
    (n : ℕ) (q : Position) (takes : Entry → Bool) (t : Taker) (s : Shared)
    → Shorter s (turn n q takes t s)
unfolding turn flushed
turn-Shorter n at_get takes t s = taken-Shorter s.queue filling at_flush t s refl
turn-Shorter n filling takes t s =
    either_way (Shorter s) (ltb (size t.buffer) n) (taken-Shorter s.queue filling at_flush t s refl)
      (omega arith)
turn-Shorter n taking takes t s = taken-Shorter s.queue draining at_last_flush t s refl
turn-Shorter n at_test takes t s = omega arith
turn-Shorter n at_flush takes t s = omega arith
turn-Shorter n draining takes t s = omega arith
turn-Shorter n at_last_flush takes t s = omega arith
turn-Shorter n done takes t s = omega arith

not_full : (n k : ℕ) → 0 < n → (not (nat_eq n 0) && leb n k) ≡ false → k + 1 ≤ n
not_full n k p e = ground arith

module _ (service_name : String) (queue_size batch_size : ℕ) where
  abbrev Within : Exporter → Type 0
  Within s = length s.shared.queue ≤ queue_size

  put-Within :
      (q : Option (List Span)) (s : Exporter)
      → 0 < queue_size
      → Within s
      → Within (put service_name queue_size batch_size q s)
  unfolding put queued is_full
  put-Within none s p h = h
  put-Within (some []) s p h = h
  put-Within (some (x ∷ xs)) s p h =
      either_branch Within (is_full service_name queue_size batch_size s.shared.queue) (λ b. h)
        (λ b. omega (
          arith,
          not_full _ _ p b,
          length-append {0} s.shared.queue (entry_of service_name x ∷ []),
        ))

  started-Within :
      (q : Option (List Span)) (spans : List Span) (s : Exporter)
      → Within s
      → Within (started service_name queue_size batch_size q spans s)
  unfolding started
  started-Within none spans s h = h
  started-Within (some _) spans s h = h

  draining_from-Within :
      (q : Position) (s : Exporter)
      → Within s
      → Within (draining_from service_name queue_size batch_size q s)
  unfolding draining_from
  draining_from-Within done s h = h
  draining_from-Within at_test s h = h
  draining_from-Within at_get s h = h
  draining_from-Within filling s h = h
  draining_from-Within at_flush s h = h
  draining_from-Within draining s h = h
  draining_from-Within taking s h = h
  draining_from-Within at_last_flush s h = h

  step-Within :
      (e : Event) (s : Exporter)
      → 0 < queue_size
      → Within s
      → Within (step service_name queue_size batch_size e s)
  unfolding step
  step-Within (exports spans) s p h = started-Within s.exporting spans s h
  step-Within puts s p h = put-Within s.exporting s p h
  step-Within stops s p h = h
  step-Within flushes s p h = draining_from-Within s.flusher.position s h
  step-Within (works takes) s p h =
      omega (arith, h, turn-Shorter batch_size s.worker.position takes s.worker s.shared)
  step-Within (drains takes) s p h =
      omega (arith, h, turn-Shorter batch_size s.flusher.position takes s.flusher s.shared)

  run-Within :
      (es : List Event) (s : Exporter)
      → 0 < queue_size
      → Within s
      → Within (run service_name queue_size batch_size es s)
  unfolding run step
  run-Within [] s p h = h
  run-Within (e ∷ es) s p h =
      run-Within es (step service_name queue_size batch_size e s) p (step-Within e s p h)

-- The queue never holds more documents than its size, which is not zero, whatever is exported and
-- however the threads take turns.
pub run-queue_bounded :
    (service_name : String) (queue_size batch_size : ℕ) (es : List Event)
    → 0 < queue_size
    → length (run service_name queue_size batch_size es new_exporter).shared.queue ≤ queue_size
run-queue_bounded service_name queue_size batch_size es p =
    run-Within service_name queue_size batch_size es new_exporter p (omega arith)

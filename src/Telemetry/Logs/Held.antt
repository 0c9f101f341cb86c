-- ===== src/Telemetry/Logs/Held.antt =====
-- The batch of the logs' exporter, and what it holds back.
use blocks_genesis_py.Prelude.{
  to_list, ℕ, ◌-◌, not, ◌&&◌, ◌||◌, length-append, ◌+◌, ◌≤◌, ◌<◌, List, [], ◌∷◌, Option, false,
  Bool, is_nil, length, leb, ◌≡◌, refl, ap, arith, either_way, either_branch,
}
use blocks_genesis_py.Telemetry.Logs.{
  LogDocument, document, BatchLogger, Position, at_test, at_get, at_flush, ended, flushed, shut,
  got, is_due, worked, Event, logs, stops, works, step, run, new_logger,
}
use blocks_genesis_py.Telemetry.Logs.Conserved.{logged}

-- How long a batch may be where the worker stands.
abbrev pub room : ℕ → Position → ℕ
room n at_flush = n
room n _ = n - 1

room_bounds : (n : ℕ) (p : Position) {k : ℕ} → k ≤ room n p → k ≤ n
room_bounds n at_test h = omega arith
room_bounds n at_get h = omega arith
room_bounds n at_flush h = omega arith
room_bounds n ended h = omega arith

Fits : ℕ → BatchLogger → Type 0
Fits n s = length s.batch ≤ room n s.position

shut-Fits :
    (n : ℕ) (o : Option ℕ) (s : BatchLogger) → Fits n s → s.position ≡ at_test → Fits n (shut o s)
unfolding Fits shut flushed
shut-Fits n o s h e = ground arith

got-Fits :
    (n : ℕ) (q : List LogDocument) (s : BatchLogger)
    → 0 < n
    → length s.batch ≤ n - 1
    → Fits n (got q s)
unfolding Fits got
got-Fits n [] s p h = omega arith
got-Fits n (d ∷ q) s p h = omega (arith, length-append {0} s.batch (d ∷ []))

due-Fits :
    (n : ℕ) (b : List LogDocument) (stopped : Bool)
    → 0 < n
    → (not (is_nil b) && (leb n (length b) || stopped)) ≡ false
    → length b ≤ n - 1
due-Fits n [] stopped p e = omega arith
due-Fits n (d ∷ b) stopped p e = ground arith

worked-Fits :
    (n : ℕ) (q : Position) (o : Option ℕ) (s : BatchLogger)
    → 0 < n
    → s.position ≡ q
    → Fits n s
    → Fits n (worked n q o s)
unfolding Fits worked flushed is_due
worked-Fits n at_test o s p e h =
    let short : length s.batch ≤ n - 1 = rw e at h in
    either_way (Fits n) s.is_stopped (shut-Fits n o s h e) short
worked-Fits n at_get o s p e h = got-Fits n s.queue s p (rw e at h)
worked-Fits n at_flush o s p e h =
    either_branch (λ (t : BatchLogger). length t.batch ≤ n - 1) (is_due n s) (λ b. omega arith)
      (λ b. due-Fits n s.batch s.is_stopped p b)
worked-Fits n ended o s p e h = h

run-Fits : (n : ℕ) (es : List Event) (s : BatchLogger) → 0 < n → Fits n s → Fits n (run n es s)
unfolding run Fits
run-Fits n [] s p h = h
run-Fits n (logs l ∷ es) s p h = run-Fits n es (step n (logs l) s) p h
run-Fits n (stops ∷ es) s p h = run-Fits n es (step n stops s) p h
run-Fits n (works o ∷ es) s p h =
    run-Fits n es (step n (works o) s) p (worked-Fits n s.position o s p refl h)

-- The worker is not told to stop.
abbrev pub NotStopped : List Event → Type 0
NotStopped [] = Unit
NotStopped (stops ∷ es) = ⊥
NotStopped (_ ∷ es) = NotStopped es

-- Nothing is stored, and nothing can be before `k` more are logged.
Holds : ℕ → ℕ → BatchLogger → Type 0
Holds n k s =
    (s.collection ≡ []) × (s.is_stopped ≡ false) × (length s.batch + length s.queue + k < n)

got-Holds :
    (n k : ℕ) (q : List LogDocument) (s : BatchLogger)
    → s.queue ≡ q
    → Holds n k s
    → Holds n k (got q s)
unfolding Holds got
got-Holds n k [] s e h = h
got-Holds n k (d ∷ q) s e h =
    (h.0, h.1, omega (arith, h.2, ap length e, length-append {0} s.batch (d ∷ [])))

worked-Holds :
    (n k : ℕ) (p : Position) (o : Option ℕ) (s : BatchLogger)
    → Holds n k s
    → Holds n k (worked n p o s)
unfolding Holds worked is_due
worked-Holds n k at_test o s h = either_branch (Holds n k) s.is_stopped (λ b. ground arith) (λ b. h)
worked-Holds n k at_get o s h = got-Holds n k s.queue s refl h
worked-Holds n k at_flush o s h =
    either_branch (Holds n k) (is_due n s) (λ b. ground arith) (λ b. h)
worked-Holds n k ended o s h = h

run-Holds :
    (n : ℕ) (es : List Event) (s : BatchLogger)
    → NotStopped es
    → Holds n (length (logged es)) s
    → (run n es s).collection ≡ []
unfolding run Holds logged
run-Holds n [] s w h = h.0
run-Holds n (logs l ∷ es) s w h =
    run-Holds n es (step n (logs l) s) w
      (h.0, h.1, omega (arith, h.2, length-append {0} s.queue (to_list (document l))))
run-Holds n (stops ∷ es) s w h = absurd w
run-Holds n (works o ∷ es) s w h =
    run-Holds n es (step n (works o) s) w (worked-Holds n (length (logged es)) s.position o s h)

-- While the worker is not told to stop, fewer logged documents than a batch are not stored, however
-- many steps it makes and however often its wait runs out.
pub run_held :
    (batch_size : ℕ) (es : List Event)
    → NotStopped es
    → length (logged es) < batch_size
    → (run batch_size es new_logger).collection ≡ []
unfolding Holds
run_held n es w k = run-Holds n es new_logger w (refl, refl, omega arith)

-- Whatever is logged, a batch is never longer than the batch size, which is not zero.
pub run-batch_bounded :
    (batch_size : ℕ) (es : List Event)
    → 0 < batch_size
    → length (run batch_size es new_logger).batch ≤ batch_size
unfolding Fits
run-batch_bounded n es p =
    let fits = run-Fits n es new_logger p (omega arith) in
    room_bounds n (run n es new_logger).position fits

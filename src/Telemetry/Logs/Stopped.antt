-- ===== src/Telemetry/Logs/Stopped.antt =====
-- The end of the logs' exporter.
use blocks_genesis_py.Prelude.{
  ℕ, suc, ◌-◌, ◌≤◌, List, [], ◌∷◌, Option, true, ◌≡◌, refl, ap, ◌∙◌, arith,
}
use blocks_genesis_py.Telemetry.Logs.{
  BatchLogger, Position, at_test, at_get, at_flush, ended, flushed, shut, got, worked, Event, logs,
  stops, works, step, run,
}

-- Once the worker has ended, nothing is stored any more.
run-ended :
    (n : ℕ) (es : List Event) (s : BatchLogger)
    → s.position ≡ ended
    → (run n es s).collection ≡ s.collection
unfolding run
run-ended n [] s e = refl
run-ended n (logs l ∷ es) s e = run-ended n es (step n (logs l) s) e
run-ended n (stops ∷ es) s e = run-ended n es (step n stops s) e
run-ended n (works o ∷ es) s e =
    let still : step n (works o) s ≡ s = ap (λ p. worked n p o s) e in
    ap (λ t. (run n es t).collection) still ∙ run-ended n es s e

-- How many of its steps the worker is from its end, once it is told to stop.
abbrev pub left : Position → ℕ
left ended = 0
left at_test = 1
left at_flush = 2
left at_get = 3

-- How many steps the worker makes.
abbrev pub turns : List Event → ℕ
turns [] = 0
turns (works o ∷ es) = suc (turns es)
turns (_ ∷ es) = turns es

-- A step brings a stopped worker nearer to its end.
worked-left :
    (n : ℕ) (p : Position) (o : Option ℕ) (s : BatchLogger)
    → s.position ≡ p
    → s.is_stopped ≡ true
    → (left (worked n p o s).position ≤ left p - 1) × ((worked n p o s).is_stopped ≡ true)
unfolding worked shut got flushed
worked-left n at_test o s e h = ground arith
worked-left n at_get o s e h = ground arith
worked-left n at_flush o s e h = ground arith
worked-left n ended o s e h = ground arith

run-left :
    (n : ℕ) (es : List Event) (s : BatchLogger)
    → s.is_stopped ≡ true
    → left s.position ≤ turns es
    → left (run n es s).position ≡ 0
unfolding run
run-left n [] s h k = omega arith
run-left n (logs l ∷ es) s h k = run-left n es (step n (logs l) s) h k
run-left n (stops ∷ es) s h k = run-left n es (step n stops s) refl k
run-left n (works o ∷ es) s h k =
    let (near, still) = worked-left n s.position o s refl h in
    run-left n es (step n (works o) s) still (omega arith)

ended_of_left : (p : Position) → left p ≡ 0 → p ≡ ended
ended_of_left ended e = refl
ended_of_left at_test e = absurd (omega arith)
ended_of_left at_flush e = absurd (omega arith)
ended_of_left at_get e = absurd (omega arith)

left_bounds : (p : Position) → left p ≤ 3
left_bounds ended = omega arith
left_bounds at_test = omega arith
left_bounds at_flush = omega arith
left_bounds at_get = omega arith

-- Told to stop, wherever it stands and whatever it was given, the worker ends within three of its
-- steps, which is what `stop` waits for; from then on nothing is stored, whatever the queue holds.
pub stop_ends :
    (batch_size : ℕ) (es fs : List Event) (s : BatchLogger)
    → 3 ≤ turns es
    → let t = run batch_size (stops ∷ es) s in
      (t.position ≡ ended) × ((run batch_size fs t).collection ≡ t.collection)
unfolding run
stop_ends n es fs s k =
    let told = step n stops s in
    let at_end =
      ended_of_left (run n es told).position
        (run-left n es told refl (omega (arith, left_bounds s.position))) in
    (at_end, run-ended n fs (run n es told) at_end)

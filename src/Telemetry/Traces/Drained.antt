-- ===== src/Telemetry/Traces/Drained.antt =====
-- The flush of what remains in the traces' exporter.
use blocks_genesis_py.Prelude.{
  ℕ, suc, ◌+◌, ◌-◌, ◌*◌, ◌≤◌, String, Bool, List, [], ◌∷◌, ◌++◌, Option, none, some, length, is_nil,
  ◌≡◌, refl, ap, subst, sym, ◌∙◌, if◌then◌else◌, arith,
}
use blocks_genesis_py.Telemetry.Traces.Document.{Span}
use blocks_genesis_py.Telemetry.Traces.{
  Entry, entries, Position, at_test, at_get, filling, at_flush, draining, taking, at_last_flush,
  done, Taker, Shared, taken, turn, Exporter, started, draining_from, Event, exports, puts, stops,
  flushes, works, drains, step, run, new_exporter,
}
use blocks_genesis_py.Telemetry.Traces.Moves.{count, RestsAt}
use blocks_genesis_py.Telemetry.Traces.Conserved.{IsCounted, run-new_exporter-IsCounted}

-- A flush that is under way, or that has left nothing in the queue.
abbrev pub Flushing : Position → List Entry → Type 0
Flushing draining q = Unit
Flushing taking q = Unit
Flushing at_last_flush q = q ≡ []
Flushing done q = q ≡ []
Flushing _ q = ⊥

-- How many steps a flush has at most to make.
abbrev pub left : Position → List Entry → ℕ
left draining q = 2 * length q + 3
left taking q = 2 * length q + 2
left at_last_flush q = 1
left _ q = 0

abbrev Nearer : ℕ → Taker × Shared → Type 0
Nearer n r = Flushing r.0.position r.1.queue × (left r.0.position r.1.queue ≤ n - 1)

emptier :
    (q : List Entry)
    → let p = if is_nil q then at_last_flush else taking in
      Flushing p q × (left p q ≤ 2 * length q + 3 - 1)
emptier [] = (refl, omega arith)
emptier (x ∷ q) = (tt, omega arith)

taken-Nearer :
    (q : List Entry) (t : Taker) (s : Shared)
    → s.queue ≡ q
    → Nearer (2 * length s.queue + 2) (taken q draining at_last_flush t s)
unfolding taken
taken-Nearer [] t s e = (e, omega (arith, ap length e))
taken-Nearer (x ∷ q) t s e = (tt, omega (arith, ap length e))

turn-Nearer :
    (n : ℕ) (q : Position) (takes : Entry → Bool) (t : Taker) (s : Shared)
    → t.position ≡ q
    → Flushing q s.queue
    → Nearer (left q s.queue) (turn n q takes t s)
unfolding turn
turn-Nearer n draining takes t s e h = emptier s.queue
turn-Nearer n taking takes t s e h = taken-Nearer s.queue t s refl
turn-Nearer n at_last_flush takes t s e h = (h, omega arith)
turn-Nearer n done takes t s e h =
    subst (λ q. Flushing q s.queue × (left q s.queue ≤ 0)) (sym e) (h, omega arith)
turn-Nearer n at_test takes t s e h = absurd h
turn-Nearer n at_get takes t s e h = absurd h
turn-Nearer n filling takes t s e h = absurd h
turn-Nearer n at_flush takes t s e h = absurd h

-- Nothing is put into the queue, and no further flush is started.
abbrev pub Quiet : List Event → Type 0
Quiet [] = Unit
Quiet (puts ∷ es) = ⊥
Quiet (flushes ∷ es) = ⊥
Quiet (_ ∷ es) = Quiet es

-- How many steps the flush makes.
abbrev pub turns : List Event → ℕ
turns [] = 0
turns (drains takes ∷ es) = suc (turns es)
turns (_ ∷ es) = turns es

-- The worker has ended, and what remains is being flushed.
pub record RunsDown (s : Exporter) : Type 0 where
  pub worker_ended : s.worker.position ≡ done
  pub flushing : Flushing s.flusher.position s.shared.queue

abbrev AtEnd : Exporter → Type 0
AtEnd t = RunsDown t × (left t.flusher.position t.shared.queue ≡ 0)

module _ (service_name : String) (queue_size batch_size : ℕ) where
  started-RunsDown :
      (q : Option (List Span)) (spans : List Span) (s : Exporter)
      → RunsDown s
      → RunsDown (started service_name queue_size batch_size q spans s)
        × (left
              (started service_name queue_size batch_size q spans s).flusher.position
              (started service_name queue_size batch_size q spans s).shared.queue
            ≤ left s.flusher.position s.shared.queue)
  unfolding started
  started-RunsDown none spans s h =
      (record { worker_ended = h.worker_ended; flushing = h.flushing }, omega arith)
  started-RunsDown (some _) spans s h = (h, omega arith)

  run-RunsDown :
      (es : List Event) (s : Exporter)
      → Quiet es
      → RunsDown s
      → left s.flusher.position s.shared.queue ≤ turns es
      → let t = run service_name queue_size batch_size es s in AtEnd t
  unfolding run step
  run-RunsDown [] s q h k = (h, omega arith)
  run-RunsDown (exports spans ∷ es) s q h k =
      let (runs, less) = started-RunsDown s.exporting spans s h in
      run-RunsDown es (step service_name queue_size batch_size (exports spans) s) q runs
        (omega arith)
  run-RunsDown (puts ∷ es) s q h k = absurd q
  run-RunsDown (stops ∷ es) s q h k =
      run-RunsDown es (step service_name queue_size batch_size stops s) q
        (record { worker_ended = h.worker_ended; flushing = h.flushing }) k
  run-RunsDown (flushes ∷ es) s q h k = absurd q
  run-RunsDown (works takes ∷ es) s q h k =
      let idle : turn batch_size s.worker.position takes s.worker s.shared ≡ (s.worker, s.shared) =
        ap (λ p. turn batch_size p takes s.worker s.shared) h.worker_ended in
      subst
        (λ r.
          AtEnd
            (run service_name queue_size batch_size es (record s { worker = r.0; shared = r.1 })))
        (sym idle) (run-RunsDown es s q h k)
  run-RunsDown (drains takes ∷ es) s q h k =
      let (near, less) =
        turn-Nearer batch_size s.flusher.position takes s.flusher s.shared refl h.flushing in
      run-RunsDown es (step service_name queue_size batch_size (drains takes) s) q
        (record { worker_ended = h.worker_ended; flushing = near }) (omega arith)

done_of_left : (p : Position) (q : List Entry) → Flushing p q → left p q ≡ 0 → (p ≡ done) × (q ≡ [])
done_of_left done q f e = (refl, f)
done_of_left draining q f e = absurd (omega arith)
done_of_left taking q f e = absurd (omega arith)
done_of_left at_last_flush q f e = absurd (omega arith)
done_of_left at_test q f e = absurd f
done_of_left at_get q f e = absurd f
done_of_left filling q f e = absurd f
done_of_left at_flush q f e = absurd f

run-append :
    (service_name : String) (queue_size batch_size : ℕ) (es fs : List Event) (s : Exporter)
    → run service_name queue_size batch_size (es ++ fs) s
      ≡ run service_name queue_size batch_size fs (run service_name queue_size batch_size es s)
unfolding run
run-append service_name queue_size batch_size [] fs s = refl
run-append service_name queue_size batch_size (e ∷ es) fs s =
    run-append service_name queue_size batch_size es fs
      (step service_name queue_size batch_size e s)

run_cons :
    (service_name : String) (queue_size batch_size : ℕ) (e : Event) (es : List Event) (s : Exporter)
    → run service_name queue_size batch_size (e ∷ es) s
      ≡ run service_name queue_size batch_size es (step service_name queue_size batch_size e s)
unfolding run
run_cons service_name queue_size batch_size e es s = refl

-- What is counted when both threads are at their ends.
settled :
    (p : Entry → Bool) (t : Exporter)
    → IsCounted p t
    → AtEnd t
    → (t.flusher.position ≡ done)
      × (t.shared.queue ≡ [])
      × (t.worker.buffer ≡ [])
      × (t.flusher.buffer ≡ [])
      × (count p t.shared.database + count p t.shared.refused ≡ count p t.shared.accepted)
unfolding entries count
settled p t c (runs, near) =
    let (ended, empty) = done_of_left t.flusher.position t.shared.queue runs.flushing near in
    let none_held : t.worker.buffer ≡ [] =
      subst (λ q. RestsAt q t.worker.buffer) runs.worker_ended c.worker_rests in
    let none_left : t.flusher.buffer ≡ [] =
      subst (λ q. RestsAt q t.flusher.buffer) ended c.flusher_rests in
    (
      ended,
      empty,
      none_held,
      none_left,
      omega (
        arith,
        c.counted,
        ap (λ b. count p (entries b)) none_held,
        ap (λ b. count p (entries b)) none_left,
        ap (count p) empty,
      ),
    )

-- Once the worker has ended, a flush of what remains ends within twice as many steps as the queue has
-- documents, and three, if nothing is put meanwhile. The queue and the buffers are empty then, and of
-- all documents ever put, those that are counted by any test are stored or refused as often as put.
pub flush_remaining_complete :
    (service_name : String) (queue_size batch_size : ℕ) (p : Entry → Bool) (es fs : List Event)
    → let run = run service_name queue_size batch_size in
      let s = run es new_exporter in
      let t = run (es ++ flushes ∷ fs) new_exporter in
      s.worker.position ≡ done
      → s.flusher.position ≡ done
      → Quiet fs
      → 2 * length s.shared.queue + 3 ≤ turns fs
      → (t.flusher.position ≡ done)
        × (t.shared.queue ≡ [])
        × (t.worker.buffer ≡ [])
        × (t.flusher.buffer ≡ [])
        × (count p t.shared.database + count p t.shared.refused ≡ count p t.shared.accepted)
unfolding step draining_from
flush_remaining_complete service_name queue_size batch_size p es fs w f q k =
    let run = run service_name queue_size batch_size in
    let s = run es new_exporter in
    let begun = record s { flusher = record { position = draining; buffer = [] } } in
    let same : step service_name queue_size batch_size flushes s ≡ begun =
      ap (λ q. draining_from service_name queue_size batch_size q s) f in
    let ends =
      run-RunsDown service_name queue_size batch_size fs begun q
        (record { worker_ended = w; flushing = tt }) k in
    settled p (run (es ++ flushes ∷ fs) new_exporter)
      (run-new_exporter-IsCounted service_name queue_size batch_size p (es ++ flushes ∷ fs))
      (subst AtEnd
        (sym (
          run-append service_name queue_size batch_size es (flushes ∷ fs) new_exporter
          ∙ run_cons service_name queue_size batch_size flushes fs s
          ∙ ap (run fs) same))
        ends)

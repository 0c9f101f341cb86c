-- ===== src/Telemetry/Traces/Conserved.antt =====
-- Where the documents of the traces stand, over any events.
use blocks_genesis_py.Prelude.{
  ℕ, ◌+◌, String, Bool, List, [], ◌∷◌, Option, none, some, ◌≡◌, refl, ap, subst, either_way, arith,
}
use blocks_genesis_py.Telemetry.Traces.Document.{Span, entry_of}
use blocks_genesis_py.Telemetry.Traces.{
  Entry, entries, Position, at_test, at_get, filling, at_flush, draining, taking, at_last_flush,
  done, Exporter, is_full, queued, put, started, draining_from, Event, exports, puts, stops,
  flushes, works, drains, step, run, new_exporter,
}
use blocks_genesis_py.Telemetry.Traces.Moves.{
  count, count-append, total, turn-Moves, RestsAt, Rests, turn-Rests,
}

-- Every accepted entry is stored, refused, in one of the buffers or in the queue; `p` counts them.
pub record IsCounted (p : Entry → Bool) (s : Exporter) : Type 0 where
  pub counted :
      total p (s.worker, s.shared) + count p (entries s.flusher.buffer) ≡ count p s.shared.accepted
  pub worker_rests : Rests s.worker
  pub flusher_rests : Rests s.flusher

module _ (service_name : String) (queue_size batch_size : ℕ) (p : Entry → Bool) where
  put-IsCounted :
      (q : Option (List Span)) (s : Exporter)
      → IsCounted p s
      → IsCounted p (put service_name queue_size batch_size q s)
  unfolding put queued
  put-IsCounted none s h = h
  put-IsCounted (some []) s h = record {
    counted = h.counted;
    worker_rests = h.worker_rests;
    flusher_rests = h.flusher_rests;
  }
  put-IsCounted (some (x ∷ xs)) s h =
      let e = entry_of service_name x in
      either_way (IsCounted p) (is_full service_name queue_size batch_size s.shared.queue)
        (record {
          counted = h.counted;
          worker_rests = h.worker_rests;
          flusher_rests = h.flusher_rests;
        })
        (record {
          counted = omega (
            arith,
            h.counted,
            count-append p s.shared.queue (e ∷ []),
            count-append p s.shared.accepted (e ∷ []),
          );
          worker_rests = h.worker_rests;
          flusher_rests = h.flusher_rests;
        })

  started-IsCounted :
      (q : Option (List Span)) (spans : List Span) (s : Exporter)
      → IsCounted p s
      → IsCounted p (started service_name queue_size batch_size q spans s)
  unfolding started
  started-IsCounted none spans s h = record {
    counted = h.counted;
    worker_rests = h.worker_rests;
    flusher_rests = h.flusher_rests;
  }
  started-IsCounted (some _) spans s h = h

  draining_from-IsCounted :
      (q : Position) (s : Exporter)
      → s.flusher.position ≡ q
      → IsCounted p s
      → IsCounted p (draining_from service_name queue_size batch_size q s)
  unfolding draining_from
  draining_from-IsCounted done s e h =
      let empty : RestsAt done s.flusher.buffer =
        subst (λ q. RestsAt q s.flusher.buffer) e h.flusher_rests in
      record {
        counted = omega (arith, h.counted, ap (λ b. count p (entries b)) empty);
        worker_rests = h.worker_rests;
        flusher_rests = tt;
      }
  draining_from-IsCounted at_test s e h = h
  draining_from-IsCounted at_get s e h = h
  draining_from-IsCounted filling s e h = h
  draining_from-IsCounted at_flush s e h = h
  draining_from-IsCounted draining s e h = h
  draining_from-IsCounted taking s e h = h
  draining_from-IsCounted at_last_flush s e h = h

  step-IsCounted :
      (e : Event) (s : Exporter)
      → IsCounted p s
      → IsCounted p (step service_name queue_size batch_size e s)
  unfolding step
  step-IsCounted (exports spans) s h = started-IsCounted s.exporting spans s h
  step-IsCounted puts s h = put-IsCounted s.exporting s h
  step-IsCounted stops s h = record {
    counted = h.counted;
    worker_rests = h.worker_rests;
    flusher_rests = h.flusher_rests;
  }
  step-IsCounted flushes s h = draining_from-IsCounted s.flusher.position s refl h
  step-IsCounted (works takes) s h =
      let (kept, same) = turn-Moves p batch_size s.worker.position takes s.worker s.shared in
      record {
        counted = omega (arith, h.counted, kept, ap (count p) same);
        worker_rests =
            turn-Rests batch_size s.worker.position takes s.worker s.shared refl h.worker_rests;
        flusher_rests = h.flusher_rests;
      }
  step-IsCounted (drains takes) s h =
      let (kept, same) = turn-Moves p batch_size s.flusher.position takes s.flusher s.shared in
      record {
        counted = omega (arith, h.counted, kept, ap (count p) same);
        worker_rests = h.worker_rests;
        flusher_rests =
            turn-Rests batch_size s.flusher.position takes s.flusher s.shared refl h.flusher_rests;
      }

  run-IsCounted :
      (es : List Event) (s : Exporter)
      → IsCounted p s
      → IsCounted p (run service_name queue_size batch_size es s)
  unfolding run
  run-IsCounted [] s h = h
  run-IsCounted (e ∷ es) s h =
      run-IsCounted es (step service_name queue_size batch_size e s) (step-IsCounted e s h)

  new_exporter-IsCounted : IsCounted p new_exporter
  unfolding entries count
  new_exporter-IsCounted = record { counted = refl; worker_rests = refl; flusher_rests = refl }

-- Whatever is exported, whatever the database refuses, and however the worker and a flush of what
-- remains take turns: of the documents, those that are counted by any test were put into the queue as
-- often as they are stored, refused, in the queue or in one of the two buffers. A buffer is empty
-- where the worker is at its loop's test or has ended, and where no flush is under way.
pub run-new_exporter-IsCounted :
    (service_name : String) (queue_size batch_size : ℕ) (p : Entry → Bool) (es : List Event)
    → IsCounted p (run service_name queue_size batch_size es new_exporter)
run-new_exporter-IsCounted service_name queue_size batch_size p es =
    run-IsCounted service_name queue_size batch_size p es new_exporter
      (new_exporter-IsCounted service_name queue_size batch_size p)

-- ===== src/Telemetry/Logs/Conserved.antt =====
-- Where the documents of the logs stand.
use blocks_genesis_py.Prelude.{
  ℕ, List, [], ◌∷◌, ◌++◌, Option, none, some, is_nil, to_list, ◌≡◌, refl, ap, sym, ◌∙◌, either_way,
}
use mathlib.Core.List.{append_assoc, append-nil}
use blocks_genesis_py.Telemetry.Logs.{
  LogDocument, document, BatchLogger, Position, at_test, at_get, at_flush, ended, flushed, shut,
  got, queued, is_due, worked, Event, logs, stops, works, step, run, new_logger,
}

-- The documents of what is logged, in its order.
unfoldable pub logged : List Event → List LogDocument
unfolding document
logged [] = []
logged (logs l ∷ es) = to_list (document l) ++ logged es
logged (stops ∷ es) = logged es
logged (works outcome ∷ es) = logged es

-- Every insert writes its batch.
abbrev pub AllWritten : List Event → Type 0
AllWritten [] = Unit
AllWritten (works outcome ∷ es) = (outcome ≡ none) × AllWritten es
AllWritten (_ ∷ es) = AllWritten es

-- All documents, the stored ones first.
contents : BatchLogger → List LogDocument
contents s = (s.collection ++ s.batch) ++ s.queue

flushed-contents : (s : BatchLogger) → contents (flushed none s) ≡ contents s
unfolding contents flushed
flushed-contents s = simp append-nil

-- The state is as good as before for what it holds.
abbrev Keeps : BatchLogger → BatchLogger → Type 0
Keeps s t = contents t ≡ contents s

shut-contents : (s : BatchLogger) → contents (shut none s) ≡ contents s
unfolding shut contents
shut-contents s = either_way (Keeps s) (is_nil s.batch) refl (flushed-contents s)

got-contents :
    (q : List LogDocument) (s : BatchLogger) → s.queue ≡ q → contents (got q s) ≡ contents s
unfolding got contents
got-contents [] s e = refl
got-contents (d ∷ q) s e = simp (e, append_assoc)

worked-contents :
    (n : ℕ) (p : Position) (s : BatchLogger) → contents (worked n p none s) ≡ contents s
unfolding worked contents
worked-contents n at_test s = either_way (Keeps s) s.is_stopped (shut-contents s) refl
worked-contents n at_get s = got-contents s.queue s refl
worked-contents n at_flush s = either_way (Keeps s) (is_due n s) (flushed-contents s) refl
worked-contents n ended s = refl

queued-contents :
    (d : Option LogDocument) (s : BatchLogger) → contents (queued d s) ≡ contents s ++ to_list d
unfolding queued contents
queued-contents none s = sym (append-nil _)
queued-contents (some d) s = simp append_assoc

run-contents :
    (n : ℕ) (es : List Event) (s : BatchLogger)
    → AllWritten es
    → contents (run n es s) ≡ contents s ++ logged es
unfolding run logged contents
run-contents n [] s w = sym (append-nil _)
run-contents n (logs l ∷ es) s w =
    run-contents n es (step n (logs l) s) w
    ∙ ap (λ c. c ++ logged es) (queued-contents (document l) s)
    ∙ append_assoc (contents s) (to_list (document l)) (logged es)
run-contents n (stops ∷ es) s w = run-contents n es (step n stops s) w
run-contents n (works o ∷ es) s w =
    run-contents n es (step n (works o) s) w.1
    ∙ ap (λ c. c ++ logged es)
        (ap (λ q. contents (worked n s.position q s)) w.0 ∙ worked-contents n s.position s)

-- Whatever is logged and however the worker's steps and a stop fall between, where every insert writes
-- its batch: the documents stored, those of the batch and those of the queue are the documents of all
-- that was logged, each once and in the order of the logging.
pub run-logged :
    (batch_size : ℕ) (es : List Event)
    → AllWritten es
    → let s = run batch_size es new_logger in (s.collection ++ s.batch) ++ s.queue ≡ logged es
unfolding contents
run-logged batch_size es w = run-contents batch_size es new_logger w

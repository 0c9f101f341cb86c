-- ===== src/Cache/Subscriptions/Leaked.antt =====
-- Tasks that listen on.
use blocks_genesis_py.Prelude.{
  ℕ, ◌+◌, ◌<◌, String, Bool, true, false, List, [], ◌∷◌, Option, none, some, nat_eq, ◌==◌, eq_refl,
  ◌≢◌, ◌&&◌, if◌then◌else◌, ◌≡◌, refl, ap, sym, subst, ◌∙◌, inl, inr, Bool-cases, either_way, arith,
}
use blocks_genesis_py.Prelude.Dict.{
  Dict, get, insert, pop, EveryEntry, get-EveryEntry, insert-EveryEntry, pop-EveryEntry,
  weaken-EveryEntry,
}
use blocks_genesis_py.Prelude.Text.{is_empty}
use blocks_genesis_py.Cache.Subscriptions.{
  Task, unstarted, listening, cancelled, failed, Client, value_error, Outcome, set_task, subscribed,
  subscribe_async, stopped, has_failed, unsubscribed, unsubscribe_async, delivered, broken, dispose,
  all_cancelled, closed, dispose_async, Event, subscribes, unsubscribes, delivers, breaks, disposes,
  disposes_async, step, run,
}

insert-insert :
    {V : Type 0} (d : Dict V) (k : String) (v w : V) → insert (insert d k v) k w ≡ insert d k w
unfolding insert
insert-insert [] k v w = rw (eq_refl k) refl
insert-insert ((j, u) ∷ d) k v w = elim (Bool-cases (j == k)) [
  | inl e ↦ rw (e, e) refl
  | inr e ↦ rw (e, e) (ap (λ t. (j, u) ∷ t) (insert-insert d k v w))
]

newer : (n m : ℕ) → n < m → nat_eq m n ≡ false
newer n m h = ground arith

and_true : (b : Bool) → (b && true) ≡ false → b ≡ false
and_true b h = ground arith

-- A listening task that the table does not have.
record Orphan (n : ℕ) (k : String) (h : ℕ) (c : Client) : Type 0 where
  unlisted : EveryEntry (λ _ m. m ≢ n) c.pubsub_tasks
  older : n < c.started
  listens : c.tasks n ≡ listening k h

-- Neither the task's handler raises nor its connection fails.
abbrev pub Spares : ℕ → List Event → Type 0
Spares n [] = Unit
Spares n (delivers m message raises ∷ es) = ((nat_eq m n && raises) ≡ false) × Spares n es
Spares n (breaks m ∷ es) = (nat_eq m n ≡ false) × Spares n es
Spares n (_ ∷ es) = Spares n es

module _ (n : ℕ) (k : String) (h : ℕ) where
  set_other :
      (m : ℕ) (t : Task) (c : Client)
      → nat_eq m n ≡ false
      → Orphan n k h c
      → Orphan n k h (set_task m t c)
  set_other m t c e o = record { unlisted = o.unlisted; older = o.older; listens = rw e o.listens }

  subscribed-Orphan :
      (works : Bool) (j : String) (g : ℕ) (c : Client)
      → Orphan n k h c
      → Orphan n k h (subscribed works j g c).1
  unfolding subscribed
  subscribed-Orphan false j g c o = record {
    unlisted = o.unlisted;
    older = o.older;
    listens = o.listens;
  }
  subscribed-Orphan true j g c o = record {
    unlisted =
        insert-EveryEntry (λ _ m. m ≢ n) c.pubsub_tasks j c.started o.unlisted
          (λ e. absurd (omega (arith, o.older)));
    older = omega (arith, o.older);
    listens = rw (newer n c.started o.older) o.listens;
  }

  other : (m : ℕ) → m ≢ n → nat_eq m n ≡ false
  other m e = elim (Bool-cases (nat_eq m n)) [ inl q ↦ absurd (e (ground arith)) | inr q ↦ q ]

  unsubscribed-Orphan :
      (o : Option ℕ) (j : String) (c : Client)
      → get c.pubsub_tasks j ≡ o
      → Orphan n k h c
      → Orphan n k h (unsubscribed o j c).1
  unfolding unsubscribed
  unsubscribed-Orphan none j c e o = record {
    unlisted = o.unlisted;
    older = o.older;
    listens = o.listens;
  }
  unsubscribed-Orphan (some m) j c e o =
      let differs = other m (get-EveryEntry (λ _ m. m ≢ n) c.pubsub_tasks j m o.unlisted e) in
      let out = record (set_task m (stopped (c.tasks m)) c) {
        pubsub_tasks = pop c.pubsub_tasks j;
      } in
      let kept : Orphan n k h out = record {
        unlisted = pop-EveryEntry (λ _ m. m ≢ n) c.pubsub_tasks j o.unlisted;
        older = o.older;
        listens = rw differs o.listens;
      } in
      either_way (λ (r : Outcome × Client). Orphan n k h r.1) (has_failed (c.tasks m)) kept
        (record { unlisted = kept.unlisted; older = kept.older; listens = kept.listens })

  delivered-Orphan :
      (t : Task) (m : ℕ) (message : String) (raises : Bool) (c : Client)
      → (nat_eq m n && raises) ≡ false
      → Orphan n k h c
      → Orphan n k h (delivered t m message raises c)
  unfolding delivered
  delivered-Orphan (listening j g) m message true c e o = record {
    unlisted = o.unlisted;
    older = o.older;
    listens = rw (and_true (nat_eq m n) e) o.listens;
  }
  delivered-Orphan (listening j g) m message false c e o = record {
    unlisted = o.unlisted;
    older = o.older;
    listens = o.listens;
  }
  delivered-Orphan unstarted m message raises c e o = o
  delivered-Orphan cancelled m message raises c e o = o
  delivered-Orphan failed m message raises c e o = o

  broken-Orphan :
      (t : Task) (m : ℕ) (c : Client)
      → nat_eq m n ≡ false
      → Orphan n k h c
      → Orphan n k h (broken t m c)
  unfolding broken
  broken-Orphan (listening j g) m c e o = set_other m failed c e o
  broken-Orphan unstarted m c e o = o
  broken-Orphan cancelled m c e o = o
  broken-Orphan failed m c e o = o

  all_cancelled-Orphan :
      (d : Dict ℕ) (c : Client)
      → EveryEntry (λ _ m. m ≢ n) d
      → Orphan n k h c
      → Orphan n k h (all_cancelled d c).1
  unfolding all_cancelled EveryEntry
  all_cancelled-Orphan [] c e o = o
  all_cancelled-Orphan ((j, m) ∷ d) c e o =
      let next = set_other m (stopped (c.tasks m)) c (other m e.0) o in
      either_way (λ (r : Bool × Client). Orphan n k h r.1) (has_failed (c.tasks m)) o
        (all_cancelled-Orphan d (set_task m (stopped (c.tasks m)) c) e.1 next)

  closed-Orphan : (r : Bool × Client) → Orphan n k h r.1 → Orphan n k h (closed r).1
  unfolding closed EveryEntry
  closed-Orphan (false, c) o = o
  closed-Orphan (true, c) o = record { unlisted = tt; older = o.older; listens = o.listens }

  step-Orphan :
      (e : Event) (c : Client) → Spares n (e ∷ []) → Orphan n k h c → Orphan n k h (step e c)
  unfolding step subscribe_async unsubscribe_async dispose dispose_async
  step-Orphan (subscribes works j none) c s o = o
  step-Orphan (subscribes works j (some g)) c s o =
      either_way (λ (r : Outcome × Client). Orphan n k h r.1) (is_empty j) o
        (subscribed-Orphan works j g c o)
  step-Orphan (unsubscribes j) c s o =
      either_way (λ (r : Outcome × Client). Orphan n k h r.1) (is_empty j) o
        (unsubscribed-Orphan (get c.pubsub_tasks j) j c refl o)
  step-Orphan (delivers m message raises) c s o =
      delivered-Orphan (c.tasks m) m message raises c s.0 o
  step-Orphan (breaks m) c s o = broken-Orphan (c.tasks m) m c s.0 o
  step-Orphan disposes c s o =
      either_way (Orphan n k h) c.disposed o
        (record { unlisted = o.unlisted; older = o.older; listens = o.listens })
  step-Orphan disposes_async c s o =
      either_way (λ (r : Outcome × Client). Orphan n k h r.1) c.disposed o
        (closed-Orphan (all_cancelled c.pubsub_tasks c)
          (all_cancelled-Orphan c.pubsub_tasks c o.unlisted o))

  run-Orphan :
      (es : List Event) (c : Client) → Spares n es → Orphan n k h c → Orphan n k h (run es c)
  unfolding run
  run-Orphan [] c s o = o
  run-Orphan (subscribes works j g ∷ es) c s o =
      run-Orphan es (step (subscribes works j g) c) s (step-Orphan (subscribes works j g) c tt o)
  run-Orphan (unsubscribes j ∷ es) c s o =
      run-Orphan es (step (unsubscribes j) c) s (step-Orphan (unsubscribes j) c tt o)
  run-Orphan (delivers m message raises ∷ es) c s o =
      run-Orphan es (step (delivers m message raises) c) s.1
        (step-Orphan (delivers m message raises) c (s.0, tt) o)
  run-Orphan (breaks m ∷ es) c s o =
      run-Orphan es (step (breaks m) c) s.1 (step-Orphan (breaks m) c (s.0, tt) o)
  run-Orphan (disposes ∷ es) c s o = run-Orphan es (step disposes c) s (step-Orphan disposes c tt o)
  run-Orphan (disposes_async ∷ es) c s o =
      run-Orphan es (step disposes_async c) s (step-Orphan disposes_async c tt o)

subscribe_works :
    (k : String) (h : ℕ) (c : Client)
    → is_empty k ≡ false
    → step (subscribes true k (some h)) c ≡ (subscribed true k h c).1
unfolding step subscribe_async
subscribe_works k h c e =
    ap (λ (b : Bool). (if b then (value_error, c) else subscribed true k h c).1) e

twice-Orphan :
    (c : Client) (k : String) (first second : ℕ)
    → EveryEntry (λ _ m. m < c.started) c.pubsub_tasks
    → Orphan c.started k first (subscribed true k second (subscribed true k first c).1).1
unfolding subscribed
twice-Orphan c k first second started =
    let differs : EveryEntry (λ _ m. m ≢ c.started) c.pubsub_tasks =
      weaken-EveryEntry (λ _ m. m < c.started) (λ _ m. m ≢ c.started) c.pubsub_tasks
        (λ j m h e. absurd (omega arith)) started in
    record {
      unlisted =
          subst (EveryEntry (λ _ m. m ≢ c.started))
            (sym (insert-insert c.pubsub_tasks k c.started (c.started + 1)))
            (insert-EveryEntry (λ _ m. m ≢ c.started) c.pubsub_tasks k (c.started + 1) differs
              (λ e. absurd (omega arith)));
      older = omega arith;
      listens = ground arith;
    }

run_two :
    (e f : Event) (es : List Event) (c : Client) → run (e ∷ f ∷ es) c ≡ run es (step f (step e c))
unfolding run
run_two e f es c = refl

-- A channel that is subscribed twice over, on a client whose table names tasks that were started: the
-- first task goes on listening, with the first handler, whatever is subscribed, unsubscribed or
-- disposed of from then on, unless its own handler raises or its connection fails.
pub resubscribed_leaks :
    (c : Client) (k : String) (first second : ℕ) (es : List Event)
    → EveryEntry (λ _ m. m < c.started) c.pubsub_tasks
    → is_empty k ≡ false
    → Spares c.started es
    → (run (subscribes true k (some first) ∷ subscribes true k (some second) ∷ es) c).tasks
        c.started
      ≡ listening k first
resubscribed_leaks c k first second es started e s =
    let one = (subscribed true k first c).1 in
    let two = (subscribed true k second one).1 in
    let both : step (subscribes true k (some second)) (step (subscribes true k (some first)) c)
        ≡ two =
      ap (step (subscribes true k (some second))) (subscribe_works k first c e)
      ∙ subscribe_works k second one e in
    let events = subscribes true k (some first) ∷ subscribes true k (some second) ∷ es in
    let same : run events c ≡ run es two =
      run_two (subscribes true k (some first)) (subscribes true k (some second)) es c
      ∙ ap (run es) both in
    ap (λ d. d.tasks c.started) same
    ∙ (run-Orphan c.started k first es two s (twice-Orphan c k first second started)).listens

-- ===== src/Messaging/Senders/Owned.antt =====
-- Who holds which lock of the senders.
use blocks_genesis_py.Prelude.{
  ℕ, String, Bool, true, false, List, [], ◌∷◌, ◌++◌, ◌≢◌, Option, none, some, nat_eq, eq_iff,
  if◌then◌else◌, ◌≡◌, refl, sym, ap, subst, ◌∙◌, inl, inr, Option-cases, arith,
}
use blocks_genesis_py.Prelude.Dict.{Dict, get, insert, pop, get-insert, get-pop}
use blocks_genesis_py.Messaging.Senders.{
  Sender, Caller, idle, waiting, sending, closing, resending, returned, Client, put_caller, stored,
  build_sender, get_or_build, get_sender, initialize_from, initialize_senders, locked, released,
  entered, admitted, replaced, answered, closed, called, woken, Event, calls, wakes, answers,
  closes, step, run, new_client,
}

-- The destination whose sender a caller drives or replaces.
abbrev pub inside : Caller → Option String
inside (sending name sender) = some name
inside (closing name stale) = some name
inside (resending name stale sender) = some name
inside _ = none

-- A destination's lock is held by the caller that is inside, and by no other.
pub record Owned (held : Dict ℕ) (callers : ℕ → Caller) : Type 0 where
  pub holds : (i : ℕ) (n : String) → inside (callers i) ≡ some n → get held n ≡ some i
  pub owner : (i : ℕ) (n : String) → get held n ≡ some i → inside (callers i) ≡ some n

abbrev pub IsOwned : Client → Type 0
IsOwned s = Owned s.held s.callers

module _ {held : Dict ℕ} {callers : ℕ → Caller} (o : Owned held callers) (i : ℕ) (c : Caller) where
  abbrev moved : ℕ → Caller
  moved j = if nat_eq i j then c else callers j

  -- A caller goes on where it holds what it held.
  stay : inside c ≡ inside (callers i) → Owned held moved
  stay same = record {
    holds = λ j n h. ground (arith, o.holds j n);
    owner = λ j n h. ground (arith, o.owner j n);
  }

  acquire :
      (n : String)
      → inside (callers i) ≡ none
      → inside c ≡ some n
      → get held n ≡ none
      → Owned (insert held n i) moved
  acquire n free goes unheld = record {
    holds = λ j m h. ground (arith, o.holds j m, get-insert held n m i, eq_iff n m);
    owner = λ j m h. ground (arith, o.owner j m, get-insert held n m i, eq_iff n m);
  }

  release : (n : String) → inside (callers i) ≡ some n → inside c ≡ none → Owned (pop held n) moved
  release n mine gone = record {
    holds = λ j m h. ground (arith, o.holds j m, o.holds i n, get-pop held n m, eq_iff n m);
    owner = λ j m h. ground (arith, o.owner j m, o.holds i n, get-pop held n m, eq_iff n m);
  }

module _ (queues topics : List String) where
  -- Fetching or building a sender touches no lock and no caller.
  fetched-Owned :
      (i : ℕ) (name : String) (c : Sender → Caller) (q : Option Sender) (s : Client)
      → ((x : Sender) → IsOwned (put_caller i (c x) s))
      → let r = get_or_build queues topics name q s in IsOwned (put_caller i (c r.0) r.1)
  unfolding get_or_build stored build_sender
  fetched-Owned i name c none s h =
      let x = (build_sender queues topics name s).0 in
      record { holds = (h x).holds; owner = (h x).owner }
  fetched-Owned i name c (some x) s h = h x

  admitted-Owned :
      (i : ℕ) (name : String) (q : Option ℕ) (s : Client)
      → get s.held name ≡ q
      → inside (s.callers i) ≡ none
      → IsOwned s
      → IsOwned (admitted queues topics i name q s)
  unfolding admitted entered get_sender locked
  admitted-Owned i name none s e free h =
      let t = locked queues topics i name s in
      fetched-Owned i name (λ x. sending name x) (get s.senders name) t
        (λ x. acquire h i (sending name x) name free refl e)
  admitted-Owned i name (some j) s e free h = stay h i (waiting name) (sym free)

  answered-Owned :
      (i : ℕ) (is_sent : Bool) (c : Caller) (s : Client)
      → s.callers i ≡ c
      → IsOwned s
      → IsOwned (answered queues topics i is_sent c s)
  unfolding answered replaced released
  answered-Owned i true (sending name x) s e h =
      release h i (returned name true) name (ap inside e) refl
  answered-Owned i false (sending name x) s e h =
      stay h i (closing name (get s.senders name)) (sym (ap inside e))
  answered-Owned i is_sent (resending name stale x) s e h =
      release h i (returned name is_sent) name (ap inside e) refl
  answered-Owned i is_sent idle s e h = h
  answered-Owned i is_sent (waiting name) s e h = h
  answered-Owned i is_sent (closing name stale) s e h = h
  answered-Owned i is_sent (returned name r) s e h = h

  closed-Owned :
      (i : ℕ) (c : Caller) (s : Client)
      → s.callers i ≡ c
      → IsOwned s
      → IsOwned (closed queues topics i c s)
  unfolding closed get_sender
  closed-Owned i (closing name stale) s e h =
      fetched-Owned i name (λ x. resending name stale x) (get s.senders name) s
        (λ x. stay h i (resending name stale x) (sym (ap inside e)))
  closed-Owned i idle s e h = h
  closed-Owned i (waiting name) s e h = h
  closed-Owned i (sending name x) s e h = h
  closed-Owned i (resending name stale x) s e h = h
  closed-Owned i (returned name r) s e h = h

  called-Owned :
      (i : ℕ) (name : String) (c : Caller) (s : Client)
      → s.callers i ≡ c
      → IsOwned s
      → IsOwned (called queues topics i name c s)
  unfolding called
  called-Owned i name idle s e h = admitted-Owned i name (get s.held name) s refl (ap inside e) h
  called-Owned i name (returned n r) s e h =
      admitted-Owned i name (get s.held name) s refl (ap inside e) h
  called-Owned i name (waiting n) s e h = h
  called-Owned i name (sending n x) s e h = h
  called-Owned i name (closing n stale) s e h = h
  called-Owned i name (resending n stale x) s e h = h

  woken-Owned :
      (i : ℕ) (c : Caller) (s : Client)
      → s.callers i ≡ c
      → IsOwned s
      → IsOwned (woken queues topics i c s)
  unfolding woken
  woken-Owned i (waiting name) s e h =
      admitted-Owned i name (get s.held name) s refl (ap inside e) h
  woken-Owned i idle s e h = h
  woken-Owned i (sending name x) s e h = h
  woken-Owned i (closing name stale) s e h = h
  woken-Owned i (resending name stale x) s e h = h
  woken-Owned i (returned name r) s e h = h

  pub step-Owned : (e : Event) (s : Client) → IsOwned s → IsOwned (step queues topics e s)
  unfolding step
  step-Owned (calls i name) s h = called-Owned i name (s.callers i) s refl h
  step-Owned (wakes i) s h = woken-Owned i (s.callers i) s refl h
  step-Owned (answers i is_sent) s h = answered-Owned i is_sent (s.callers i) s refl h
  step-Owned (closes i) s h = closed-Owned i (s.callers i) s refl h

  pub run-Owned : (es : List Event) (s : Client) → IsOwned s → IsOwned (run queues topics es s)
  unfolding run
  run-Owned [] s h = h
  run-Owned (e ∷ es) s h = run-Owned es (step queues topics e s) (step-Owned e s h)

  initialize_from-Owned :
      (names : List String) (s : Client)
      → IsOwned s
      → IsOwned (initialize_from queues topics names s)
  unfolding initialize_from stored build_sender
  initialize_from-Owned [] s h = h
  initialize_from-Owned (name ∷ names) s h =
      initialize_from-Owned names (stored queues topics name (build_sender queues topics name s)).1
        (record { holds = h.holds; owner = h.owner })

  pub new_client-Owned : IsOwned (new_client queues topics)
  unfolding new_client initialize_senders get
  new_client-Owned =
      initialize_from-Owned (queues ++ topics) _
        (record { holds = λ i n h. cc; owner = λ i n h. cc })

-- Whoever sends where and when, and however sends and closes end: two callers that are inside the same
-- destination's sender, to send, to replace it or to send again, are one caller, which holds the
-- destination's lock.
pub send_exclusive :
    (queues topics : List String) (es : List Event) (i j : ℕ) (name : String)
    → let s = run queues topics es (new_client queues topics) in
      inside (s.callers i) ≡ some name
      → inside (s.callers j) ≡ some name
      → (i ≡ j) × (get s.held name ≡ some i)
send_exclusive queues topics es i j name p q =
    let o =
      run-Owned queues topics es (new_client queues topics) (new_client-Owned queues topics) in
    let same : some i ≡ some j = sym (o.holds i name p) ∙ o.holds j name q in
    (ground arith, o.holds i name p)

put-caller_self : (i : ℕ) (c : Caller) (s : Client) → (put_caller i c s).callers i ≡ c
put-caller_self i c s = ground arith

module _ (queues topics : List String) where
  entered-sending :
      (i : ℕ) (name : String) (q : Option ℕ) (s : Client)
      → q ≡ none
      → (x : Sender) × ((admitted queues topics i name q s).callers i ≡ sending name x)
  unfolding admitted entered
  entered-sending i name none s e =
      let r = get_sender queues topics name (locked queues topics i name s) in
      (r.0, put-caller_self i (sending name r.0) r.1)
  entered-sending i name (some j) s e = cc

  woken-sending :
      (i : ℕ) (name : String) (c : Caller) (s : Client)
      → c ≡ waiting name
      → get s.held name ≡ none
      → (x : Sender) × ((woken queues topics i c s).callers i ≡ sending name x)
  unfolding woken
  woken-sending i name (waiting n) s e free =
      let same : n ≡ name = cc e in
      subst
        (λ m.
          (x : Sender) × ((admitted queues topics i m (get s.held m) s).callers i ≡ sending name x))
        (sym same) (entered-sending i name (get s.held name) s free)
  woken-sending i name idle s e free = cc
  woken-sending i name (sending n x) s e free = cc
  woken-sending i name (closing n stale) s e free = cc
  woken-sending i name (resending n stale x) s e free = cc
  woken-sending i name (returned n r) s e free = cc

-- A caller that waits for a destination starts its send when it is woken while nobody is inside that
-- destination's sender: no lock stays held by a caller that has returned or raised.
pub woken_sends :
    (queues topics : List String) (es : List Event) (i : ℕ) (name : String)
    → let s = run queues topics es (new_client queues topics) in
      s.callers i ≡ waiting name
      → ((j : ℕ) → inside (s.callers j) ≢ some name)
      → (x : Sender) × ((step queues topics (wakes i) s).callers i ≡ sending name x)
unfolding step
woken_sends queues topics es i name w alone =
    let s = run queues topics es (new_client queues topics) in
    let o =
      run-Owned queues topics es (new_client queues topics) (new_client-Owned queues topics) in
    woken-sending queues topics i name (s.callers i) s w (elim (Option-cases (get s.held name)) [
      | inl e ↦ e
      | inr (j, e) ↦ absurd (alone j (o.owner j name e))
    ])

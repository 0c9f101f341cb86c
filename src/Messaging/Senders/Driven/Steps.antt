-- ===== src/Messaging/Senders/Driven/Steps.antt =====
-- Which sender a caller drives, over any events.
use blocks_genesis_py.Prelude.{
  ℕ, ◌+◌, String, Bool, true, false, List, [], ◌∷◌, ◌++◌, Option, none, some, nat_eq, eq_refl, ◌≡◌,
  ◌≢◌, refl, sym, ap, subst, ◌∙◌, arith,
}
use blocks_genesis_py.Prelude.Dict.{get, insert, get-insert, get-pop}
use blocks_genesis_py.Messaging.Senders.{
  Sender, Caller, idle, waiting, sending, closing, resending, returned, Client, put_caller, kind_of,
  stored, build_sender, get_or_build, get_sender, initialize_from, initialize_senders, locked,
  released, entered, admitted, replaced, answered, closed, called, woken, Event, calls, wakes,
  answers, closes, step, run, new_client,
}
use blocks_genesis_py.Messaging.Senders.Owned.{inside, IsOwned, step-Owned, new_client-Owned}
use blocks_genesis_py.Messaging.Senders.Driven.{Older, Fits, Driven, settle, drop_sender, register}

none-some : {A : Type 0} (x : A) → none ≡ some x → ⊥
none-some x h = cc

module _ (queues topics : List String) where
  abbrev pub IsDriven : Client → Type 0
  IsDriven s = Driven (kind_of queues topics) s.senders s.built s.callers

  -- Fetching or building the sender of a destination where nobody else is inside.
  fetched-Driven :
      (i : ℕ) (name : String) (c : Sender → Caller) (q : Option Sender) (s : Client)
      → get s.senders name ≡ q
      → IsDriven s
      → ((j : ℕ) → nat_eq i j ≡ false → inside (s.callers j) ≢ some name)
      → ((x : Sender) → q ≡ some x → Fits s.senders s.built (c x))
      → (let x : Sender = record { number = s.built; kind = kind_of queues topics name } in
          q ≡ none → Fits (insert s.senders name x) (s.built + 1) (c x))
      → let r = get_or_build queues topics name q s in IsDriven (put_caller i (c r.0) r.1)
  unfolding get_or_build stored build_sender
  fetched-Driven i name c none s e d alone old new =
      register d i name alone (c (build_sender queues topics name s).0) (new refl)
  fetched-Driven i name c (some x) s e d alone old new = settle d i (c x) (old x refl)

  -- A caller that holds a destination's lock is alone there.
  others_away :
      (i : ℕ) (name : String) (s : Client)
      → IsOwned s
      → get s.held name ≡ some i
      → (j : ℕ) → nat_eq i j ≡ false
      → inside (s.callers j) ≢ some name
  others_away i name s o mine j other h =
      let same : some i ≡ some j = sym mine ∙ o.holds j name h in ground arith

  all_away :
      (name : String) (s : Client)
      → IsOwned s
      → get s.held name ≡ none
      → (j : ℕ) → inside (s.callers j) ≢ some name
  all_away name s o free j h = let held : none ≡ some j = sym free ∙ o.holds j name h in cc

  admitted-Driven :
      (i : ℕ) (name : String) (q : Option ℕ) (s : Client)
      → get s.held name ≡ q
      → IsOwned s
      → IsDriven s
      → IsDriven (admitted queues topics i name q s)
  unfolding admitted entered get_sender locked
  admitted-Driven i name none s e o d =
      let t = locked queues topics i name s in
      fetched-Driven i name (λ x. sending name x) (get s.senders name) t refl
        (record { kinds = d.kinds; fits = d.fits }) (λ j b. all_away name s o e j) (λ x f. f)
        (λ f. get-insert s.senders name name _ ∙ rw (eq_refl name) refl)
  admitted-Driven i name (some j) s e o d = settle d i (waiting name) tt

  registered-Older :
      (name : String) (r : Option Sender) (s : Client)
      → IsDriven s
      → get s.senders name ≡ r
      → Older r s.built
  registered-Older name none s d e = tt
  registered-Older name (some x) s d e = (d.kinds name x e).1

  answered-Driven :
      (i : ℕ) (is_sent : Bool) (c : Caller) (s : Client)
      → s.callers i ≡ c
      → IsOwned s
      → IsDriven s
      → IsDriven (answered queues topics i is_sent c s)
  unfolding answered replaced released
  answered-Driven i true (sending name x) s e o d =
      let r = settle d i (returned name true) tt in record { kinds = r.kinds; fits = r.fits }
  answered-Driven i false (sending name x) s e o d =
      drop_sender d i name (others_away i name s o (o.holds i name (ap inside e)))
        (closing name (get s.senders name))
        (
          get-pop s.senders name name ∙ rw (eq_refl name) refl,
          registered-Older name (get s.senders name) s d refl,
        )
  answered-Driven i is_sent (resending name stale x) s e o d =
      let r = settle d i (returned name is_sent) tt in record { kinds = r.kinds; fits = r.fits }
  answered-Driven i is_sent idle s e o d = d
  answered-Driven i is_sent (waiting name) s e o d = d
  answered-Driven i is_sent (closing name stale) s e o d = d
  answered-Driven i is_sent (returned name r) s e o d = d

  closed-Driven :
      (i : ℕ) (c : Caller) (s : Client)
      → s.callers i ≡ c
      → IsOwned s
      → IsDriven s
      → IsDriven (closed queues topics i c s)
  unfolding closed get_sender
  closed-Driven i (closing name stale) s e o d =
      let fit : Fits s.senders s.built (closing name stale) =
        subst (λ c. Fits s.senders s.built c) e (d.fits i) in
      fetched-Driven i name (λ x. resending name stale x) (get s.senders name) s refl d
        (others_away i name s o (o.holds i name (ap inside e)))
        (λ x f. absurd (none-some x (sym fit.0 ∙ f)))
        (λ f. (get-insert s.senders name name _ ∙ rw (eq_refl name) refl, fit.1))
  closed-Driven i idle s e o d = d
  closed-Driven i (waiting name) s e o d = d
  closed-Driven i (sending name x) s e o d = d
  closed-Driven i (resending name stale x) s e o d = d
  closed-Driven i (returned name r) s e o d = d

  called-Driven :
      (i : ℕ) (name : String) (c : Caller) (s : Client)
      → IsOwned s
      → IsDriven s
      → IsDriven (called queues topics i name c s)
  unfolding called
  called-Driven i name idle s o d = admitted-Driven i name (get s.held name) s refl o d
  called-Driven i name (returned n r) s o d = admitted-Driven i name (get s.held name) s refl o d
  called-Driven i name (waiting n) s o d = d
  called-Driven i name (sending n x) s o d = d
  called-Driven i name (closing n stale) s o d = d
  called-Driven i name (resending n stale x) s o d = d

  woken-Driven :
      (i : ℕ) (c : Caller) (s : Client)
      → IsOwned s
      → IsDriven s
      → IsDriven (woken queues topics i c s)
  unfolding woken
  woken-Driven i (waiting name) s o d = admitted-Driven i name (get s.held name) s refl o d
  woken-Driven i idle s o d = d
  woken-Driven i (sending name x) s o d = d
  woken-Driven i (closing name stale) s o d = d
  woken-Driven i (resending name stale x) s o d = d
  woken-Driven i (returned name r) s o d = d

  step-Driven :
      (e : Event) (s : Client) → IsOwned s → IsDriven s → IsDriven (step queues topics e s)
  unfolding step
  step-Driven (calls i name) s o d = called-Driven i name (s.callers i) s o d
  step-Driven (wakes i) s o d = woken-Driven i (s.callers i) s o d
  step-Driven (answers i is_sent) s o d = answered-Driven i is_sent (s.callers i) s refl o d
  step-Driven (closes i) s o d = closed-Driven i (s.callers i) s refl o d

  run-Driven :
      (es : List Event) (s : Client) → IsOwned s → IsDriven s → IsDriven (run queues topics es s)
  unfolding run
  run-Driven [] s o d = d
  run-Driven (e ∷ es) s o d =
      run-Driven es (step queues topics e s) (step-Owned queues topics e s o) (step-Driven e s o d)

  -- While the senders are built for the first time, nobody calls.
  initialize_from-Driven :
      (names : List String) (s : Client)
      → ((i : ℕ) → s.callers i ≡ idle)
      → IsDriven s
      → IsDriven (initialize_from queues topics names s)
  unfolding initialize_from stored build_sender
  initialize_from-Driven [] s quiet d = d
  initialize_from-Driven (name ∷ names) s quiet d =
      let t = (stored queues topics name (build_sender queues topics name s)).1 in
      let away : (j : ℕ) → inside (s.callers j) ≢ some name =
        λ j h. none-some name (sym (ap inside (quiet j)) ∙ h) in
      let r = register d 0 name (λ j b. away j) idle tt in
      initialize_from-Driven names t quiet (record {
        kinds = r.kinds;
        fits = λ j. subst (λ c. Fits t.senders t.built c) (sym (quiet j)) tt;
      })

  new_client-Driven : IsDriven (new_client queues topics)
  unfolding new_client initialize_senders get
  new_client-Driven =
      initialize_from-Driven (queues ++ topics) _ (λ i. refl)
        (record { kinds = λ n x h. cc; fits = λ i. tt })

-- Whoever sends where and when, and however sends and closes end: every registered sender is of the
-- kind that its destination is configured as, a topic's where it is not configured; a caller that sends
-- drives the sender that is registered for its destination; one that replaces a sender finds none
-- registered; and one that sends again drives a registered sender that was built after the one that
-- failed.
pub sender-IsDriven :
    (queues topics : List String) (es : List Event) (i : ℕ)
    → let s = run queues topics es (new_client queues topics) in
      IsDriven queues topics s × Fits s.senders s.built (s.callers i)
sender-IsDriven queues topics es i =
    let o = new_client-Owned queues topics in
    let d =
      run-Driven queues topics es (new_client queues topics) o (new_client-Driven queues topics) in
    (d, d.fits i)

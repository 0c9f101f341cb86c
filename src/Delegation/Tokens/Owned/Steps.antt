-- ===== src/Delegation/Tokens/Owned/Steps.antt =====
-- Every event keeps the locks owned.
use blocks_genesis_py.Prelude.{
  ℕ, ◌+◌, ◌%◌, ◌<◌, String, Bool, true, false, List, [], ◌∷◌, Option, none, some, ◌≡◌, refl, ap,
  ◌∙◌, inl, inr, nat_eq, Bool-cases, arith,
}
use blocks_genesis_py.Prelude.Dict.{Dict, get, insert, get-pop}
use blocks_genesis_py.Prelude.Text.{is_empty}
use blocks_genesis_py.Delegation.Exchange.{CachedToken, is_usable, Platform, Attempt, exchange}
use blocks_genesis_py.Delegation.Tokens.{
  Task, idle, waiting, exchanging, returned, Provider, sweep_interval_calls, update, usable_token,
  lock_released, sweep_locks, sweep_expired, counted, rechecked, locked, with_lock, first_checked,
  is_free, looked_up, call, woken, settled, finished, invalidate, Event, calls, wakes, ends,
  settles, step, run, new_provider,
}
use blocks_genesis_py.Delegation.Tokens.Owned.{
  under, got, IsOwned, park, acquire, release, relist, reheld, new_lock, unmade_free,
}

lock_released-fewer :
    (held : ℕ → Bool) (j : String) (locks : Dict ℕ) (k : String) (l : ℕ)
    → get (lock_released held j locks) k ≡ some l
    → get locks k ≡ some l
unfolding lock_released
lock_released-fewer held j locks k l h = ground (arith, get-pop locks j k)

sweep_locks-fewer :
    (ts : Dict CachedToken) (now : ℕ) (held : ℕ → Bool) (locks : Dict ℕ) (k : String) (l : ℕ)
    → get (sweep_locks ts now held locks) k ≡ some l
    → get locks k ≡ some l
unfolding sweep_locks
sweep_locks-fewer [] now held locks k l h = h
sweep_locks-fewer ((j, t) ∷ ts) now held locks k l h = elim (Bool-cases (is_usable t now)) [
  | inl e ↦ sweep_locks-fewer ts now held locks k l (rw e at h)
  | inr e ↦
      lock_released-fewer held j locks k l
        (sweep_locks-fewer ts now held (lock_released held j locks) k l (rw e at h))
]

-- Counting a call changes neither the tasks nor the lock objects, and takes entries out of the table
-- at most.
counted-Owned : (now : ℕ) (s : Provider) → IsOwned s → IsOwned (counted now s)
unfolding counted sweep_expired
counted-Owned now s o = elim (Bool-cases (nat_eq ((s.call_count + 1) % sweep_interval_calls) 0)) [
  | inl e ↦ rw e (relist o _ (sweep_locks-fewer s.tokens now s.held s.locks))
  | inr e ↦ rw e o
]

pub counted-tasks : (now : ℕ) (s : Provider) → (counted now s).tasks ≡ s.tasks
unfolding counted sweep_expired
counted-tasks now s = ground arith

module _ (i : ℕ) (tenant d : String) where
  rechecked-Owned :
      (l : ℕ) (r : Option String) (s : Provider)
      → IsOwned s
      → under (s.tasks i) ≡ none
      → s.held l ≡ false
      → l < s.made
      → IsOwned (rechecked i tenant d l r s)
  unfolding rechecked
  rechecked-Owned l none s o free unheld small = acquire o i l tenant d free unheld small
  rechecked-Owned l (some t) s o free unheld small =
      reheld (park o i (returned (some t)) free refl (λ m e h. cc)) (update s.held l false)
        (λ m. ground arith)

  locked-Owned :
      (now l : ℕ) (b : Bool) (s : Provider)
      → IsOwned s
      → under (s.tasks i) ≡ none
      → s.held l ≡ b
      → l < s.made
      → IsOwned (locked i tenant d now l b s)
  unfolding locked
  locked-Owned now l true s o free unheld small =
      park o i (waiting tenant d l) free refl (λ m e h. ground arith)
  locked-Owned now l false s o free unheld small =
      rechecked-Owned l (usable_token (get s.tokens d) now) s o free unheld small

  with_lock-Owned :
      (now : ℕ) (q : Option ℕ) (s : Provider)
      → IsOwned s
      → under (s.tasks i) ≡ none
      → get s.locks d ≡ q
      → IsOwned (with_lock i tenant d now q s)
  unfolding with_lock
  with_lock-Owned now (some l) s o free e =
      locked-Owned now l (s.held l) s o free refl (o.listed d l e)
  with_lock-Owned now none s o free e =
      locked-Owned now s.made false
        (record s { locks = insert s.locks d s.made; made = s.made + 1 }) (new_lock o d) free
        (unmade_free o) (omega arith)

  first_checked-Owned :
      (now : ℕ) (r : Option String) (s : Provider)
      → IsOwned s
      → under (s.tasks i) ≡ none
      → IsOwned (first_checked i tenant d now r s)
  unfolding first_checked
  first_checked-Owned now none s o free = with_lock-Owned now (get s.locks d) s o free refl
  first_checked-Owned now (some t) s o free = park o i (returned (some t)) free refl (λ m e h. cc)

  looked_up-Owned :
      (now later : ℕ) (s : Provider)
      → IsOwned s
      → under (s.tasks i) ≡ none
      → IsOwned (looked_up i tenant d now later s)
  unfolding looked_up
  looked_up-Owned now later s o free =
      first_checked-Owned later (usable_token (get s.tokens d) now) s o free

woken-Owned :
    (i now : ℕ) (t : Task) (s : Provider) → IsOwned s → s.tasks i ≡ t → IsOwned (woken i now t s)
unfolding woken
woken-Owned i now idle s o e = o
woken-Owned i now (waiting x g l) s o e =
    locked-Owned i x g now l (s.held l) s o (ap under e) refl (o.known i l g (ap got e))
woken-Owned i now (exchanging x g l) s o e = o
woken-Owned i now (returned r) s o e = o

is_free-under : (t : Task) → is_free t ≡ true → under t ≡ none
is_free-under idle h = refl
is_free-under (waiting t d l) h = refl
is_free-under (exchanging t d l) h = cc
is_free-under (returned r) h = refl

call-Owned :
    (i : ℕ) (grant : Option String) (tenant : String) (now later : ℕ) (s : Provider)
    → IsOwned s
    → under (s.tasks i) ≡ none
    → IsOwned (call i grant tenant now later s)
unfolding call
call-Owned i none tenant now later s o free = park o i (returned none) free refl (λ m e h. cc)
call-Owned i (some d) tenant now later s o free =
    let back = park o i (returned none) free refl (λ m e h. cc) in
    elim (Bool-cases (is_empty d)) [
      | inl e ↦ rw e back
      | inr e ↦ elim (Bool-cases (is_empty tenant)) [
        | inl f ↦ rw (e, f) back
        | inr f ↦
            rw (e, f)
              (looked_up-Owned i tenant d now later (counted now s) (counted-Owned now s o)
                (ap (λ (ts : ℕ → Task). under (ts i)) (counted-tasks now s) ∙ free))
      ]
    ]

settled-Owned :
    (i : ℕ) (d : String) (l : ℕ) (r : Option CachedToken) (s : Provider)
    → IsOwned s
    → under (s.tasks i) ≡ some l
    → IsOwned (settled i d l r s)
unfolding settled
settled-Owned i d l none s o mine = release o i l none mine
settled-Owned i d l (some t) s o mine = release o i l (some t.access_token) mine

finished-Owned :
    (p : Platform) (i : ℕ) (a : Attempt) (t : Task) (s : Provider)
    → IsOwned s
    → s.tasks i ≡ t
    → IsOwned (finished p i a t s)
unfolding finished
finished-Owned p i a idle s o e = o
finished-Owned p i a (waiting x g l) s o e = o
finished-Owned p i a (exchanging x g l) s o e =
    settled-Owned i g l (exchange p a x g) s o (ap under e)
finished-Owned p i a (returned r) s o e = o

invalidate-Owned : (d : String) (s : Provider) → IsOwned s → IsOwned (invalidate d s)
unfolding invalidate
invalidate-Owned d s o = elim (Bool-cases (is_empty d)) [
  | inl e ↦ rw e o
  | inr e ↦ rw e (relist o _ (λ k l h. ground (arith, get-pop s.locks d k)))
]

-- Every event keeps the locks owned.
pub step-Owned : (p : Platform) (e : Event) (s : Provider) → IsOwned s → IsOwned (step p e s)
unfolding step
step-Owned p (calls i grant tenant now later) s o = elim (Bool-cases (is_free (s.tasks i))) [
  | inl e ↦ rw e (call-Owned i grant tenant now later s o (is_free-under (s.tasks i) e))
  | inr e ↦ rw e o
]
step-Owned p (wakes i now) s o = woken-Owned i now (s.tasks i) s o refl
step-Owned p (ends i a) s o = finished-Owned p i a (s.tasks i) s o refl
step-Owned p (settles g) s o = invalidate-Owned g s o

pub new_provider-Owned : IsOwned new_provider
unfolding get
new_provider-Owned = record {
  holds = λ i l h. cc;
  owner = λ l h. cc;
  unique = λ i j l h k. cc;
  taken = λ l h. cc;
  listed = λ k l h. cc;
  known = λ i l d h. cc;
}

-- Whatever the callers do and in whatever order, every lock that is held is held by exactly one task
-- that exchanges, every task that exchanges holds its lock, and all locks in use were made.
pub run-Owned : (p : Platform) (es : List Event) (s : Provider) → IsOwned s → IsOwned (run p es s)
unfolding run
run-Owned p [] s o = o
run-Owned p (e ∷ es) s o = run-Owned p es (step p e s) (step-Owned p e s o)

-- ===== src/Delegation/Tokens/SingleFlight.antt =====
-- A grant has one exchange at a time.
use blocks_genesis_py.Prelude.{
  ℕ, String, Bool, true, false, List, [], ◌∷◌, Option, none, some, ◌≡◌, refl, sym, ap, ◌∙◌, subst,
  ◌⊎◌, inl, inr, nat_eq, eq_refl, Bool-cases, arith,
}
use blocks_genesis_py.Prelude.Dict.{get, get-insert}
use blocks_genesis_py.Prelude.Text.{is_empty}
use blocks_genesis_py.Delegation.Exchange.{CachedToken, Platform, Attempt, exchange}
use blocks_genesis_py.Delegation.Tokens.{
  Task, idle, waiting, exchanging, returned, Provider, put_task, usable_token, counted, rechecked,
  locked, with_lock, first_checked, is_free, looked_up, call, woken, settled, finished, invalidate,
  Event, calls, wakes, ends, settles, step, run, new_provider,
}
use blocks_genesis_py.Delegation.Tokens.Owned.{under, got}
use blocks_genesis_py.Delegation.Tokens.Owned.Steps.{run-Owned, new_provider-Owned, counted-tasks}

-- A lock that a task has got newly is the one that the table holds for its grant.
FromTable : (ℕ → Task) → Provider → Type 0
FromTable tasks s =
    (j : ℕ) (d : String) (l : ℕ)
    → got (s.tasks j) ≡ some (d, l)
    → (got (tasks j) ≡ some (d, l)) ⊎ (get s.locks d ≡ some l)

put_task-FromTable :
    (i : ℕ) (t : Task) (s : Provider)
    → ((d : String) (l : ℕ)
        → got t ≡ some (d, l)
        → (got (s.tasks i) ≡ some (d, l)) ⊎ (get s.locks d ≡ some l))
    → FromTable s.tasks (put_task i t s)
unfolding FromTable
put_task-FromTable i t s h j d l g = elim (Bool-cases (nat_eq i j)) [
  | inl e ↦
      let same : i ≡ j = ground arith in
      subst (λ k. (got (s.tasks k) ≡ some (d, l)) ⊎ (get s.locks d ≡ some l)) same
        (h d l (rw e at g))
  | inr e ↦ inl (rw e at g)
]

module _ (i : ℕ) (tenant d : String) where
  rechecked-FromTable :
      (l : ℕ) (r : Option String) (s : Provider)
      → (got (s.tasks i) ≡ some (d, l)) ⊎ (get s.locks d ≡ some l)
      → FromTable s.tasks (rechecked i tenant d l r s)
  unfolding rechecked
  rechecked-FromTable l none s h = put_task-FromTable i _ _ (λ e m g. ground arith)
  rechecked-FromTable l (some t) s h = put_task-FromTable i _ _ (λ e m g. ground arith)

  locked-FromTable :
      (now l : ℕ) (b : Bool) (s : Provider)
      → (got (s.tasks i) ≡ some (d, l)) ⊎ (get s.locks d ≡ some l)
      → FromTable s.tasks (locked i tenant d now l b s)
  unfolding locked
  locked-FromTable now l true s h = put_task-FromTable i _ _ (λ e m g. ground arith)
  locked-FromTable now l false s h = rechecked-FromTable l (usable_token (get s.tokens d) now) s h

  with_lock-FromTable :
      (now : ℕ) (q : Option ℕ) (s : Provider)
      → get s.locks d ≡ q
      → FromTable s.tasks (with_lock i tenant d now q s)
  unfolding with_lock
  with_lock-FromTable now (some l) s h = locked-FromTable now l (s.held l) s (inr h)
  with_lock-FromTable now none s h =
      locked-FromTable now s.made false _
        (inr (ground (arith, get-insert s.locks d d s.made, eq_refl d)))

  first_checked-FromTable :
      (now : ℕ) (r : Option String) (s : Provider)
      → FromTable s.tasks (first_checked i tenant d now r s)
  unfolding first_checked
  first_checked-FromTable now none s = with_lock-FromTable now (get s.locks d) s refl
  first_checked-FromTable now (some t) s = put_task-FromTable i _ _ (λ e m g. ground arith)

call-FromTable :
    (i : ℕ) (grant : Option String) (tenant : String) (now later : ℕ) (s : Provider)
    → FromTable s.tasks (call i grant tenant now later s)
unfolding call looked_up
call-FromTable i none tenant now later s = put_task-FromTable i _ _ (λ e m g. ground arith)
call-FromTable i (some d) tenant now later s =
    let back = put_task-FromTable i (returned none) s (λ e m g. ground arith) in
    elim (Bool-cases (is_empty d)) [
      | inl e ↦ rw e back
      | inr e ↦ elim (Bool-cases (is_empty tenant)) [
        | inl f ↦ rw (e, f) back
        | inr f ↦
            rw (e, f)
              (subst (λ ts. FromTable ts (looked_up i tenant d now later (counted now s)))
                (counted-tasks now s)
                (first_checked-FromTable i tenant d later
                  (usable_token (get (counted now s).tokens d) now) (counted now s)))
      ]
    ]

same-FromTable : (s : Provider) → FromTable s.tasks s
unfolding FromTable
same-FromTable s j d l g = inl g

woken-FromTable :
    (i now : ℕ) (t : Task) (s : Provider) → s.tasks i ≡ t → FromTable s.tasks (woken i now t s)
unfolding woken
woken-FromTable i now idle s e = same-FromTable s
woken-FromTable i now (waiting x d l) s e =
    locked-FromTable i x d now l (s.held l) s (inl (ap got e))
woken-FromTable i now (exchanging x d l) s e = same-FromTable s
woken-FromTable i now (returned r) s e = same-FromTable s

settled-FromTable :
    (i : ℕ) (d : String) (l : ℕ) (r : Option CachedToken) (s : Provider)
    → FromTable s.tasks (settled i d l r s)
unfolding settled
settled-FromTable i d l none s = put_task-FromTable i _ _ (λ e m g. ground arith)
settled-FromTable i d l (some t) s = put_task-FromTable i _ _ (λ e m g. ground arith)

finished-FromTable :
    (p : Platform) (i : ℕ) (a : Attempt) (t : Task) (s : Provider)
    → FromTable s.tasks (finished p i a t s)
unfolding finished
finished-FromTable p i a idle s = same-FromTable s
finished-FromTable p i a (waiting x d l) s = same-FromTable s
finished-FromTable p i a (exchanging x d l) s = settled-FromTable i d l (exchange p a x d) s
finished-FromTable p i a (returned r) s = same-FromTable s

invalidate-FromTable : (d : String) (s : Provider) → FromTable s.tasks (invalidate d s)
unfolding invalidate FromTable
invalidate-FromTable d s = elim (Bool-cases (is_empty d)) [
  | inl e ↦ rw e (same-FromTable s)
  | inr e ↦ rw e (λ j k l g. inl g)
]

step-FromTable : (p : Platform) (e : Event) (s : Provider) → FromTable s.tasks (step p e s)
unfolding step
step-FromTable p (calls i grant tenant now later) s = elim (Bool-cases (is_free (s.tasks i))) [
  | inl e ↦ rw e (call-FromTable i grant tenant now later s)
  | inr e ↦ rw e (same-FromTable s)
]
step-FromTable p (wakes i now) s = woken-FromTable i now (s.tasks i) s refl
step-FromTable p (ends i a) s = finished-FromTable p i a (s.tasks i) s
step-FromTable p (settles g) s = invalidate-FromTable g s

-- No event of a run takes the lock of a grant out of the table.
unfoldable pub KeepsLock : Platform → String → List Event → Provider → Type 0
KeepsLock p d [] s = Unit
KeepsLock p d (e ∷ es) s =
    ((l : ℕ) → get s.locks d ≡ some l → get (step p e s).locks d ≡ some l)
    × KeepsLock p d es (step p e s)

-- Every task that has a lock for the grant has the one in the table.
Registered : String → Provider → Type 0
Registered d s = (i l : ℕ) → got (s.tasks i) ≡ some (d, l) → get s.locks d ≡ some l

run-Registered :
    (p : Platform) (d : String) (es : List Event) (s : Provider)
    → KeepsLock p d es s
    → Registered d s
    → Registered d (run p es s)
unfolding run KeepsLock Registered FromTable
run-Registered p d [] s k r = r
run-Registered p d (e ∷ es) s k r = run-Registered p d es (step p e s) k.1 (λ i l g.
    elim (step-FromTable p e s i d l g) [ inl old ↦ k.0 l (r i l old) | inr listed ↦ listed ])

-- From a new provider, in every order of calls, wakings and exchanges in which no event takes the
-- grant's lock out of the table, two tasks that exchange for the same grant are the same task.
pub single_flight :
    (p : Platform) (d : String) (es : List Event) (i j : ℕ) (t u : String) (l m : ℕ)
    → KeepsLock p d es new_provider
    → (run p es new_provider).tasks i ≡ exchanging t d l
    → (run p es new_provider).tasks j ≡ exchanging u d m
    → i ≡ j
unfolding Registered
single_flight p d es i j t u l m k a b =
    let r = run-Registered p d es new_provider k (λ n o g. cc) in
    let same = sym (r i l (ap got a)) ∙ r j m (ap got b) in
    (run-Owned p es new_provider new_provider-Owned).unique i j l (ap under a)
      (ap under b ∙ sym same)

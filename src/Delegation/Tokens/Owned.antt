-- ===== src/Delegation/Tokens/Owned.antt =====
-- Who holds which lock of the token provider.
pub mod Steps
use blocks_genesis_py.Prelude.{
  ℕ, ◌+◌, ◌%◌, ◌<◌, ◌≤◌, String, Bool, true, false, List, [], ◌∷◌, Option, none, some, ◌≡◌, refl,
  sym, ap, ◌∙◌, ◌⊎◌, inl, inr, nat_eq, eq_iff, if◌then◌else◌, Bool-cases, Option-cases, arith,
}
use blocks_genesis_py.Prelude.Dict.{Dict, get, insert, pop, get-insert, get-pop}
use blocks_genesis_py.Prelude.Text.{is_empty}
use blocks_genesis_py.Delegation.Exchange.{CachedToken, is_usable, Platform, Attempt, exchange}
use blocks_genesis_py.Delegation.Tokens.{
  Task, idle, waiting, exchanging, returned, Provider, sweep_interval_calls, update, put_task,
  usable_token, lock_released, sweep_locks, sweep_expired, counted, rechecked, locked, with_lock,
  first_checked, is_free, looked_up, call, woken, settled, finished, invalidate, Event, calls,
  wakes, ends, settles, step, run, new_provider,
}

-- The lock under which a task exchanges.
abbrev pub under : Task → Option ℕ
under (exchanging t d l) = some l
under _ = none

-- The lock that a task has got, and for which grant.
abbrev pub got : Task → Option (String × ℕ)
got (waiting t d l) = some (d, l)
got (exchanging t d l) = some (d, l)
got _ = none

-- A lock is held by exactly one exchanging task, and every lock in use was made.
pub record Owned (locks : Dict ℕ) (held : ℕ → Bool) (made : ℕ) (tasks : ℕ → Task) : Type 0 where
  pub holds : (i l : ℕ) → under (tasks i) ≡ some l → held l ≡ true
  pub owner : (l : ℕ) → held l ≡ true → (i : ℕ) × (under (tasks i) ≡ some l)
  pub unique : (i j l : ℕ) → under (tasks i) ≡ some l → under (tasks j) ≡ some l → i ≡ j
  pub taken : (l : ℕ) → held l ≡ true → l < made
  pub listed : (k : String) (l : ℕ) → get locks k ≡ some l → l < made
  pub known : (i l : ℕ) (d : String) → got (tasks i) ≡ some (d, l) → l < made

abbrev pub IsOwned : Provider → Type 0
IsOwned s = Owned s.locks s.held s.made s.tasks

module _ {locks : Dict ℕ} {held : ℕ → Bool} {made : ℕ} {tasks : ℕ → Task}
    (o : Owned locks held made tasks) where
  -- A task that exchanges nothing takes up a place where it exchanges nothing.
  pub park :
      (i : ℕ) (t : Task)
      → under (tasks i) ≡ none
      → under t ≡ none
      → ((l : ℕ) (d : String) → got t ≡ some (d, l) → l < made)
      → Owned locks held made (update tasks i t)
  park i t free quiet known = record {
    holds = λ j l h. ground (arith, o.holds j l);
    owner = λ l h. let (j, e) = o.owner l h in (j, ground arith);
    unique = λ j k l p q. ground (arith, o.unique j k l);
    taken = o.taken;
    listed = o.listed;
    known = λ j l d h. ground (arith, o.known j l d, known l d);
  }

  pub acquire :
      (i l : ℕ) (tenant d : String)
      → under (tasks i) ≡ none
      → held l ≡ false
      → l < made
      → Owned locks (update held l true) made (update tasks i (exchanging tenant d l))
  acquire i l tenant d free unheld small = record {
    holds = λ j m h. ground (arith, o.holds j m);
    owner = λ m h. elim (Bool-cases (nat_eq l m)) [
      | inl e ↦ (i, ground arith)
      | inr e ↦ let (j, x) = o.owner m (ground arith) in (j, ground arith)
    ];
    unique = λ j k m p q. ground (arith, o.unique j k m, o.holds j m, o.holds k m);
    taken = λ m h. ground (arith, o.taken m);
    listed = o.listed;
    known = λ j m e h. ground (arith, o.known j m e);
  }

  pub release :
      (i l : ℕ) (r : Option String)
      → under (tasks i) ≡ some l
      → Owned locks (update held l false) made (update tasks i (returned r))
  release i l r mine = record {
    holds = λ j m h. ground (arith, o.holds j m, o.unique i j m);
    owner = λ m h. let (j, x) = o.owner m (ground arith) in (j, ground arith);
    unique = λ j k m p q. ground (arith, o.unique j k m);
    taken = λ m h. ground (arith, o.taken m);
    listed = o.listed;
    known = λ j m e h. ground (arith, o.known j m e);
  }

  -- A lock may leave the table.
  pub relist :
      (locks' : Dict ℕ)
      → ((k : String) (l : ℕ) → get locks' k ≡ some l → get locks k ≡ some l)
      → Owned locks' held made tasks
  relist locks' fewer = record {
    holds = o.holds;
    owner = o.owner;
    unique = o.unique;
    taken = o.taken;
    listed = λ k l h. o.listed k l (fewer k l h);
    known = o.known;
  }

  -- The same lock objects are held.
  pub reheld : (held' : ℕ → Bool) → ((l : ℕ) → held' l ≡ held l) → Owned locks held' made tasks
  reheld held' same = record {
    holds = λ i l h. same l ∙ o.holds i l h;
    owner = λ l h. o.owner l (sym (same l) ∙ h);
    unique = o.unique;
    taken = λ l h. o.taken l (sym (same l) ∙ h);
    listed = o.listed;
    known = o.known;
  }

  -- A new lock is held by nobody.
  pub new_lock : (k : String) → Owned (insert locks k made) held (made + 1) tasks
  new_lock k = record {
    holds = o.holds;
    owner = o.owner;
    unique = o.unique;
    taken = λ l h. ground (arith, o.taken l);
    listed = λ j l h. ground (arith, o.listed j l, get-insert locks k j made);
    known = λ i l d h. ground (arith, o.known i l d);
  }

  pub unmade_free : held made ≡ false
  unmade_free = elim (Bool-cases (held made)) [
    | inl e ↦ absurd (omega (arith, o.taken made e))
    | inr e ↦ e
  ]

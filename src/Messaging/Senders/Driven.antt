-- ===== src/Messaging/Senders/Driven.antt =====
-- Which sender a caller drives.
pub mod Steps
use blocks_genesis_py.Prelude.{
  ℕ, ◌+◌, ◌<◌, String, Bool, true, false, List, [], ◌∷◌, ◌++◌, Option, none, some, nat_eq, ◌==◌,
  eq_iff, if◌then◌else◌, ◌≡◌, ◌≢◌, refl, sym, ap, subst, either_way, either_branch, ◌∙◌, inl, inr,
  Bool-cases, Option-cases, arith,
}
use blocks_genesis_py.Prelude.Dict.{Dict, get, insert, pop, get-insert, get-pop}
use blocks_genesis_py.Messaging.Senders.{
  Kind, Sender, Caller, idle, waiting, sending, closing, resending, returned,
}
use blocks_genesis_py.Messaging.Senders.Owned.{inside}

-- The sender that failed before, if any, was built before another.
abbrev pub Older : Option Sender → ℕ → Type 0
Older none n = Unit
Older (some y) n = y.number < n

-- A caller drives the sender that is registered; the one that it has sent with before is another.
abbrev pub Fits : Dict Sender → ℕ → Caller → Type 0
Fits senders built (sending name x) = get senders name ≡ some x
Fits senders built (closing name stale) = (get senders name ≡ none) × Older stale built
Fits senders built (resending name stale x) = (get senders name ≡ some x) × Older stale x.number
Fits senders built _ = Unit

pub record Driven (kind : String → Kind) (senders : Dict Sender) (built : ℕ) (callers : ℕ → Caller)
    : Type 0 where
  pub kinds :
      (n : String) (x : Sender) → get senders n ≡ some x → (x.kind ≡ kind n) × (x.number < built)
  pub fits : (i : ℕ) → Fits senders built (callers i)

-- A new sender, or none, at a destination where the caller is not inside.
Older-later : (o : Option Sender) (n : ℕ) → Older o n → Older o (n + 1)
Older-later none n h = tt
Older-later (some y) n h = omega arith

elsewhere :
    (senders : Dict Sender) (n m : String) (x : Sender) (r : Option Sender)
    → some m ≢ some n
    → get senders m ≡ r
    → get (insert senders n x) m ≡ r
elsewhere senders n m x r away h = ground (arith, get-insert senders n m x, eq_iff n m)

dropped :
    (senders : Dict Sender) (n m : String) (r : Option Sender)
    → some m ≢ some n
    → get senders m ≡ r
    → get (pop senders n) m ≡ r
dropped senders n m r away h = ground (arith, get-pop senders n m, eq_iff n m)

insert-Fits :
    (senders : Dict Sender) (built : ℕ) (n : String) (x : Sender) (c : Caller)
    → inside c ≢ some n
    → Fits senders built c
    → Fits (insert senders n x) (built + 1) c
insert-Fits senders built n x (sending m y) away h = elsewhere senders n m x (some y) away h
insert-Fits senders built n x (closing m stale) away h =
    (elsewhere senders n m x none away h.0, Older-later stale built h.1)
insert-Fits senders built n x (resending m stale y) away h =
    (elsewhere senders n m x (some y) away h.0, h.1)
insert-Fits senders built n x idle away h = tt
insert-Fits senders built n x (waiting m) away h = tt
insert-Fits senders built n x (returned m r) away h = tt

pop-Fits :
    (senders : Dict Sender) (built : ℕ) (n : String) (c : Caller)
    → inside c ≢ some n
    → Fits senders built c
    → Fits (pop senders n) built c
pop-Fits senders built n (sending m y) away h = dropped senders n m (some y) away h
pop-Fits senders built n (closing m stale) away h = (dropped senders n m none away h.0, h.1)
pop-Fits senders built n (resending m stale y) away h = (dropped senders n m (some y) away h.0, h.1)
pop-Fits senders built n idle away h = tt
pop-Fits senders built n (waiting m) away h = tt
pop-Fits senders built n (returned m r) away h = tt

module _ {kind : String → Kind} {senders : Dict Sender} {built : ℕ} {callers : ℕ → Caller}
    (d : Driven kind senders built callers) (i : ℕ) where
  abbrev pub moved : Caller → ℕ → Caller
  moved c j = if nat_eq i j then c else callers j

  pub settle : (c : Caller) → Fits senders built c → Driven kind senders built (moved c)
  settle c h = record {
    kinds = d.kinds;
    fits = λ j. either_way (Fits senders built) (nat_eq i j) h (d.fits j);
  }

  -- Nobody else is inside the destination.
  module _ (n : String) (alone : (j : ℕ) → nat_eq i j ≡ false → inside (callers j) ≢ some n) where
    pub drop_sender :
        (c : Caller) → Fits (pop senders n) built c → Driven kind (pop senders n) built (moved c)
    drop_sender c h = record {
      kinds = λ m x e. ground (arith, d.kinds m x, get-pop senders n m);
      fits = λ j.
          either_branch (Fits (pop senders n) built) (nat_eq i j) (λ b. h)
            (λ b. pop-Fits senders built n (callers j) (alone j b) (d.fits j));
    }

    pub register :
        (c : Caller)
        → let x : Sender = record { number = built; kind = kind n } in
          Fits (insert senders n x) (built + 1) c
          → Driven kind (insert senders n x) (built + 1) (moved c)
    register c h =
        let x : Sender = record { number = built; kind = kind n } in
        record {
          kinds = λ m y e. ground (arith, d.kinds m y, get-insert senders n m x, eq_iff n m);
          fits = λ j.
              either_branch (Fits (insert senders n x) (built + 1)) (nat_eq i j) (λ b. h)
                (λ b. insert-Fits senders built n x (callers j) (alone j b) (d.fits j));
        }

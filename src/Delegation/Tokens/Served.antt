-- ===== src/Delegation/Tokens/Served.antt =====
-- Where a token that is served without an exchange comes from.
use mathlib.Core.List.{append_assoc}
use blocks_genesis_py.Prelude.{
  ℕ, ◌+◌, ◌%◌, ◌<◌, String, Bool, true, false, List, [], ◌∷◌, Option, none, some, ◌≡◌, ◌∙◌, ◌++◌,
  sym, ap, refl, ◌⊎◌, inl, inr, nat_eq, Bool-cases, Option-cases, arith,
}
use blocks_genesis_py.Prelude.Dict.{
  Dict, get, EveryEntry, get-EveryEntry, insert-EveryEntry, pop-EveryEntry,
}
use blocks_genesis_py.Prelude.Text.{is_empty}
use blocks_genesis_py.Delegation.Exchange.{CachedToken, is_usable, Platform, Attempt, exchange}
use blocks_genesis_py.Delegation.Tokens.{
  Task, idle, waiting, exchanging, returned, Provider, usable_token, sweep_tokens,
  sweep_interval_calls, sweep_expired, counted, rechecked, locked, with_lock, first_checked,
  is_free, looked_up, call, woken, settled, finished, invalidate, Event, calls, wakes, ends,
  settles, step, run, new_provider,
}

-- Among the events, an exchange that a call for the grant had started has ended and given the token.
pub record IsIssued (p : Platform) (es : List Event) (d : String) (c : CachedToken) : Type 0 where
  pub before : List Event
  pub task : ℕ
  pub attempt : Attempt
  pub after : List Event
  pub happened : es ≡ before ++ ends task attempt ∷ after
  pub tenant : String
  pub lock : ℕ
  pub started : (run p before new_provider).tasks task ≡ exchanging tenant d lock
  pub given : exchange p attempt tenant d ≡ some c

module _ (p : Platform) (Issued : String → CachedToken → Type 0) where
  abbrev pub AllIssued : Provider → Type 0
  AllIssued s = EveryEntry Issued s.tokens

  sweep_tokens-EveryEntry :
      (ts : Dict CachedToken) (now : ℕ)
      → EveryEntry Issued ts
      → EveryEntry Issued (sweep_tokens ts now)
  unfolding EveryEntry sweep_tokens
  sweep_tokens-EveryEntry [] now h = h
  sweep_tokens-EveryEntry ((k, t) ∷ ts) now h = elim (Bool-cases (is_usable t now)) [
    | inl e ↦ rw e (h.0, sweep_tokens-EveryEntry ts now h.1)
    | inr e ↦ rw e (sweep_tokens-EveryEntry ts now h.1)
  ]

  counted-AllIssued : (now : ℕ) (s : Provider) → AllIssued s → AllIssued (counted now s)
  unfolding counted sweep_expired
  counted-AllIssued now s h =
      elim (Bool-cases (nat_eq ((s.call_count + 1) % sweep_interval_calls) 0)) [
        | inl e ↦ rw e (sweep_tokens-EveryEntry s.tokens now h)
        | inr e ↦ rw e h
      ]

  module _ (i : ℕ) (tenant d : String) where
    locked-AllIssued :
        (now l : ℕ) (b : Bool) (s : Provider)
        → AllIssued s
        → AllIssued (locked i tenant d now l b s)
    unfolding locked rechecked
    locked-AllIssued now l true s h = h
    locked-AllIssued now l false s h = elim (Option-cases (usable_token (get s.tokens d) now)) [
      | inl e ↦ rw e (pop-EveryEntry Issued s.tokens d h)
      | inr (t, e) ↦ rw e h
    ]

    with_lock-AllIssued :
        (now : ℕ) (q : Option ℕ) (s : Provider)
        → AllIssued s
        → AllIssued (with_lock i tenant d now q s)
    unfolding with_lock
    with_lock-AllIssued now (some l) s h = locked-AllIssued now l (s.held l) s h
    with_lock-AllIssued now none s h = locked-AllIssued now s.made false _ h

    looked_up-AllIssued :
        (now later : ℕ) (s : Provider) → AllIssued s → AllIssued (looked_up i tenant d now later s)
    unfolding looked_up first_checked
    looked_up-AllIssued now later s h = elim (Option-cases (usable_token (get s.tokens d) now)) [
      | inl e ↦ rw e (with_lock-AllIssued later (get s.locks d) s h)
      | inr (t, e) ↦ rw e h
    ]

  call-AllIssued :
      (i : ℕ) (grant : Option String) (tenant : String) (now later : ℕ) (s : Provider)
      → AllIssued s
      → AllIssued (call i grant tenant now later s)
  unfolding call
  call-AllIssued i none tenant now later s h = h
  call-AllIssued i (some d) tenant now later s h = elim (Bool-cases (is_empty d)) [
    | inl e ↦ rw e h
    | inr e ↦ elim (Bool-cases (is_empty tenant)) [
      | inl f ↦ rw (e, f) h
      | inr f ↦
          rw (e, f)
            (looked_up-AllIssued i tenant d now later (counted now s) (counted-AllIssued now s h))
    ]
  ]

  woken-AllIssued :
      (i now : ℕ) (t : Task) (s : Provider) → AllIssued s → AllIssued (woken i now t s)
  unfolding woken
  woken-AllIssued i now idle s h = h
  woken-AllIssued i now (waiting x d l) s h = locked-AllIssued i x d now l (s.held l) s h
  woken-AllIssued i now (exchanging x d l) s h = h
  woken-AllIssued i now (returned r) s h = h

  finished-AllIssued :
      (i : ℕ) (a : Attempt) (t : Task) (s : Provider)
      → ((x d : String) (l : ℕ) (c : CachedToken)
          → t ≡ exchanging x d l
          → exchange p a x d ≡ some c
          → Issued d c)
      → AllIssued s
      → AllIssued (finished p i a t s)
  unfolding finished settled
  finished-AllIssued i a idle s new h = h
  finished-AllIssued i a (waiting x d l) s new h = h
  finished-AllIssued i a (exchanging x d l) s new h = elim (Option-cases (exchange p a x d)) [
    | inl e ↦ rw e h
    | inr (c, e) ↦ rw e (insert-EveryEntry Issued s.tokens d c h (new x d l c refl e))
  ]
  finished-AllIssued i a (returned r) s new h = h

  -- The events' exchanges that end with a token, as far as they are to come.
  abbrev Issues : Event → Provider → Type 0
  Issues e s =
      (i : ℕ) (a : Attempt) (x d : String) (l : ℕ) (c : CachedToken)
      → e ≡ ends i a
      → s.tasks i ≡ exchanging x d l
      → exchange p a x d ≡ some c
      → Issued d c

  step-AllIssued : (e : Event) (s : Provider) → Issues e s → AllIssued s → AllIssued (step p e s)
  unfolding step invalidate
  step-AllIssued (calls i grant tenant now later) s new h =
      elim (Bool-cases (is_free (s.tasks i))) [
        | inl e ↦ rw e (call-AllIssued i grant tenant now later s h)
        | inr e ↦ rw e h
      ]
  step-AllIssued (wakes i now) s new h = woken-AllIssued i now (s.tasks i) s h
  step-AllIssued (ends i a) s new h =
      finished-AllIssued i a (s.tasks i) s (λ x d l c. new i a x d l c refl) h
  step-AllIssued (settles d) s new h = elim (Bool-cases (is_empty d)) [
    | inl e ↦ rw e h
    | inr e ↦ rw e (pop-EveryEntry Issued s.tokens d h)
  ]

  -- An issued token, more than a minute before it expires.
  abbrev pub ServedFor : String → ℕ → String → Type 0
  ServedFor d now t =
      (c : CachedToken) × Issued d c × (c.access_token ≡ t) × (now + 60 < c.expires_at)

  usable_token-ServedFor :
      (d : String) (now : ℕ) (t : String) (q : Option CachedToken)
      → ((c : CachedToken) → q ≡ some c → Issued d c)
      → usable_token q now ≡ some t
      → ServedFor d now t
  unfolding usable_token is_usable
  usable_token-ServedFor d now t none h e = cc
  usable_token-ServedFor d now t (some c) h e = (c, h c refl, ground arith, ground arith)

  module _ (i : ℕ) (tenant d t : String) where
    rechecked-ServedFor :
        (now l : ℕ) (q : Option String) (s : Provider)
        → AllIssued s
        → usable_token (get s.tokens d) now ≡ q
        → (rechecked i tenant d l q s).tasks i ≡ returned (some t)
        → ServedFor d now t
    unfolding rechecked
    rechecked-ServedFor now l none s h u e = ground arith
    rechecked-ServedFor now l (some v) s h u e =
        usable_token-ServedFor d now t (get s.tokens d) (λ c. get-EveryEntry Issued s.tokens d c h)
          (ground arith)

    locked-ServedFor :
        (now l : ℕ) (b : Bool) (s : Provider)
        → AllIssued s
        → (locked i tenant d now l b s).tasks i ≡ returned (some t)
        → ServedFor d now t
    unfolding locked
    locked-ServedFor now l true s h e = ground arith
    locked-ServedFor now l false s h e =
        rechecked-ServedFor now l (usable_token (get s.tokens d) now) s h refl e

    with_lock-ServedFor :
        (now : ℕ) (q : Option ℕ) (s : Provider)
        → AllIssued s
        → (with_lock i tenant d now q s).tasks i ≡ returned (some t)
        → ServedFor d now t
    unfolding with_lock
    with_lock-ServedFor now (some l) s h e = locked-ServedFor now l (s.held l) s h e
    with_lock-ServedFor now none s h e = locked-ServedFor now s.made false _ h e

    first_checked-ServedFor :
        (now later : ℕ) (q : Option String) (s : Provider)
        → AllIssued s
        → usable_token (get s.tokens d) now ≡ q
        → (first_checked i tenant d later q s).tasks i ≡ returned (some t)
        → ServedFor d now t ⊎ ServedFor d later t
    unfolding first_checked
    first_checked-ServedFor now later none s h u e =
        inr (with_lock-ServedFor later (get s.locks d) s h e)
    first_checked-ServedFor now later (some v) s h u e = inl (
        usable_token-ServedFor d now t (get s.tokens d) (λ c. get-EveryEntry Issued s.tokens d c h)
          (ground arith))

    call-ServedFor :
        (now later : ℕ) (s : Provider)
        → AllIssued s
        → (call i (some d) tenant now later s).tasks i ≡ returned (some t)
        → ServedFor d now t ⊎ ServedFor d later t
    unfolding call looked_up
    call-ServedFor now later s h e = elim (Bool-cases (is_empty d)) [
      | inl a ↦ ground arith
      | inr a ↦ elim (Bool-cases (is_empty tenant)) [
        | inl b ↦ ground arith
        | inr b ↦
            first_checked-ServedFor now later (usable_token (get (counted now s).tokens d) now)
              (counted now s) (counted-AllIssued now s h) refl (rw (a, b) at e)
      ]
    ]

run-snoc :
    (p : Platform) (xs : List Event) (e : Event) (s : Provider)
    → run p (xs ++ e ∷ []) s ≡ step p e (run p xs s)
unfolding run
run-snoc p [] e s = refl
run-snoc p (x ∷ xs) e s = run-snoc p xs e (step p x s)

module _ (p : Platform) (all : List Event) where
  -- After a part of the events, the cached tokens are issued ones, if they were before the rest of it.
  run-AllIssued :
      (past es : List Event) (s : Provider)
      → all ≡ past ++ es
      → s ≡ run p past new_provider
      → AllIssued p (IsIssued p all) s
      → AllIssued p (IsIssued p all) (run p es s)
  unfolding run
  run-AllIssued past [] s q r h = h
  run-AllIssued past (e ∷ es) s q r h =
      run-AllIssued (past ++ e ∷ []) es (step p e s) (q ∙ sym (append_assoc past (e ∷ []) es))
        (ap (step p e) r ∙ sym (run-snoc p past e new_provider))
        (step-AllIssued p (IsIssued p all) e s
          (λ i a x d l c ended started given. record {
            before = past;
            task = i;
            attempt = a;
            after = es;
            happened = q ∙ ap (λ y. past ++ y ∷ es) ended;
            tenant = x;
            lock = l;
            started = ap (λ y. y.tasks i) (sym r) ∙ started;
            given = given;
          })
          h)

-- Whatever has happened to a new provider, a token that a call for a grant gets at once was given, among
-- what has happened, by an exchange that a call for the same grant had started; and at one of the call's
-- two readings of the clock more than a minute remains before it expires.
pub call_served :
    (p : Platform) (es : List Event) (i : ℕ) (tenant d t : String) (now later : ℕ)
    → (call i (some d) tenant now later (run p es new_provider)).tasks i ≡ returned (some t)
    → ServedFor p (IsIssued p es) d now t ⊎ ServedFor p (IsIssued p es) d later t
unfolding EveryEntry
call_served p es i tenant d t now later e =
    call-ServedFor p (IsIssued p es) i tenant d t now later (run p es new_provider)
      (run-AllIssued p es [] es new_provider refl (unfold run in refl) tt) e

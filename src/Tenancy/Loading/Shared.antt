-- ===== src/Tenancy/Loading/Shared.antt =====
-- Callers that wait for the same tenant.
use blocks_genesis_py.Prelude.{
  ℕ, String, List, [], ◌∷◌, Option, none, some, nat_eq, if◌then◌else◌, ◌==◌, ◌≡◌, refl, sym, ap,
  ◌∙◌, inl, inr, eq_iff, Bool-cases, Option-cases, arith,
}
use blocks_genesis_py.Prelude.Dict.{Dict, get, get-insert, get-pop}
use blocks_genesis_py.Prelude.Text.{is_empty}
use blocks_genesis_py.Tenancy.Tenant.{Tenant}
use blocks_genesis_py.Tenancy.Loading.{
  Caller, idle, awaiting, returned, Loading, put_caller, joined, looked_up, asked, ended, finished,
  resumed, is_free, Event, asks, answers, resumes, updates, step, run, new_loading,
}

-- The load that a caller waits for, and for which tenant.
abbrev pub awaits : Caller → Option (String × ℕ)
awaits (awaiting t l) = some (t, l)
awaits _ = none

-- A load that a caller waits for and that has given nothing yet is the one in progress for its tenant.
Registered : (ℕ → Option (Option Tenant)) → Dict ℕ → (ℕ → Caller) → Type 0
Registered loaded progress callers =
    (i : ℕ) (t : String) (l : ℕ)
    → awaits (callers i) ≡ some (t, l)
    → loaded l ≡ none
    → get progress t ≡ some l

IsShared : Loading → Type 0
IsShared s = Registered s.loaded s.load_in_progress s.callers

put_caller-IsShared :
    (i : ℕ) (c : Caller) (s : Loading)
    → IsShared s
    → ((t : String) (l : ℕ) → awaits c ≡ some (t, l) → get s.load_in_progress t ≡ some l)
    → IsShared (put_caller i c s)
unfolding IsShared Registered
put_caller-IsShared i c s h new j t l a u = elim (Bool-cases (nat_eq i j)) [
  | inl e ↦ new t l (rw e at a)
  | inr e ↦ h j t l (rw e at a) u
]

joined-IsShared :
    (i : ℕ) (t : String) (q : Option ℕ) (s : Loading)
    → IsShared s
    → get s.load_in_progress t ≡ q
    → IsShared (joined i t q s)
unfolding joined IsShared Registered
joined-IsShared i t (some l) s h e j u m a n =
    put_caller-IsShared i (awaiting t l) s h (λ v k b. ground arith) j u m a n
joined-IsShared i t none s h e j u l a n = ground (
  arith,
  get-insert s.load_in_progress t u s.started,
  eq_iff t u,
  h j u l,
  λ (x : t ≡ u). ap (get s.load_in_progress) x,
)

asked-IsShared : (i : ℕ) (t : String) (s : Loading) → IsShared s → IsShared (asked i t s)
unfolding asked looked_up
asked-IsShared i t s h = elim (Bool-cases (is_empty t)) [
  | inl b ↦ rw b (put_caller-IsShared i (returned none) s h (λ u l a. cc))
  | inr b ↦ elim (Option-cases (get s.tenant_cache t)) [
    | inl c ↦ rw (b, c) (joined-IsShared i t (get s.load_in_progress t) s h refl)
    | inr (v, c) ↦ rw (b, c) (put_caller-IsShared i (returned (some v)) s h (λ u l a. cc))
  ]
]

-- Taking a load that has ended out of those in progress touches no other.
ended-kept :
    (t : String) (l : ℕ) (q : Option ℕ) (progress : Dict ℕ) (u : String) (m : ℕ)
    → get progress t ≡ q
    → get progress u ≡ some m
    → ((l ≡ m) → ⊥)
    → get (ended t l q progress) u ≡ some m
unfolding ended
ended-kept t l none progress u m e f differs = f
ended-kept t l (some k) progress u m e f differs = elim (Bool-cases (nat_eq k l)) [
  | inl b ↦ elim (Bool-cases (t == u)) [
    | inl c ↦
        let same : t ≡ u = (eq_iff t u).0 c in
        let met : some k ≡ some m = sym e ∙ ap (get progress) same ∙ f in
        absurd (differs (ground arith))
    | inr c ↦ rw b (get-pop progress t u ∙ rw c f)
  ]
  | inr b ↦ rw b f
]

finished-IsShared :
    (i : ℕ) (t : String) (l : ℕ) (q : Option (Option Tenant)) (s : Loading)
    → IsShared s
    → s.loaded l ≡ q
    → IsShared (finished i t l q s)
unfolding finished IsShared Registered
finished-IsShared i t l none s h e j u m a n = h j u m a n
finished-IsShared i t l (some found) s h e j u m a n = elim (Bool-cases (nat_eq i j)) [
  | inl b ↦ ground arith
  | inr b ↦
      ended-kept t l (get s.load_in_progress t) s.load_in_progress u m refl (h j u m (rw b at a) n)
        (λ same. ground (arith, ap s.loaded same))
]

resumed-IsShared : (i : ℕ) (c : Caller) (s : Loading) → IsShared s → IsShared (resumed i c s)
unfolding resumed
resumed-IsShared i idle s h = h
resumed-IsShared i (returned r) s h = h
resumed-IsShared i (awaiting t l) s h = finished-IsShared i t l (s.loaded l) s h refl

answered-IsShared :
    (l : ℕ) (found : Option Tenant) (s : Loading)
    → IsShared s
    → IsShared (record s { loaded = λ k. if nat_eq l k then some found else s.loaded k })
unfolding IsShared Registered
answered-IsShared l found s h j u m a n = h j u m a (ground arith)

step-IsShared : (e : Event) (s : Loading) → IsShared s → IsShared (step e s)
unfolding step IsShared
step-IsShared (asks i t) s h = elim (Bool-cases (is_free (s.callers i))) [
  | inl b ↦ rw b (asked-IsShared i t s h)
  | inr b ↦ rw b h
]
step-IsShared (answers l found) s h = answered-IsShared l found s h
step-IsShared (resumes i) s h = resumed-IsShared i (s.callers i) s h
step-IsShared (updates m) s h = h

run-IsShared : (es : List Event) (s : Loading) → IsShared s → IsShared (run es s)
unfolding run
run-IsShared [] s h = h
run-IsShared (e ∷ es) s h = run-IsShared es (step e s) (step-IsShared e s h)

new_loading-IsShared : IsShared new_loading
unfolding IsShared Registered
new_loading-IsShared i t l a n = cc

-- Whatever the callers, the database and the update messages do, and in whatever order, callers that
-- wait for the same tenant's load, where it has given nothing yet, wait for the same load.
pub load_shared :
    (es : List Event) (i j : ℕ) (t : String) (l m : ℕ)
    → (run es new_loading).callers i ≡ awaiting t l
    → (run es new_loading).callers j ≡ awaiting t m
    → (run es new_loading).loaded l ≡ none
    → (run es new_loading).loaded m ≡ none
    → l ≡ m
unfolding IsShared Registered
load_shared es i j t l m a b u v =
    let h = run-IsShared es new_loading new_loading-IsShared in
    let same : some l ≡ some m = sym (h i t l (ap awaits a) u) ∙ h j t m (ap awaits b) v in
    ground arith

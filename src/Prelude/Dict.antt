-- ===== src/Prelude/Dict.antt =====
-- Python's `dict` with text keys, as its items in the order of insertion. A key that is set again
-- keeps its place, as in the source's language.
use Prim.Native.String.{String}
use mathlib.Core.Path.{◌≡◌, refl, ap, subst}
use mathlib.Core.Logic.{inl, inr}
use mathlib.Core.Bool.{Bool}
use mathlib.Core.Option.{Option, none, some}
use mathlib.Core.List.{List, [], ◌∷◌}
use native.Mathlib.Omega.{arith}
use text.Mathlib.Text.{◌==◌}
use text.Mathlib.TextEquality.{eq_iff}
use blocks_genesis_py.Prelude.Tests.{if◌then◌else◌, Bool-cases}

abbrev pub Dict {ℓ} : Type ℓ → Type ℓ
Dict V = List (String × V)

module _ {ℓ} {V : Type ℓ} where
  -- `d.get(k)`
  unfoldable pub get : Dict V → String → Option V
  get [] k = none
  get ((j, v) ∷ d) k = if j == k then some v else get d k

  -- `d[k] = v`
  unfoldable pub insert : Dict V → String → V → Dict V
  insert [] k v = (k, v) ∷ []
  insert ((j, w) ∷ d) k v = if j == k then (j, v) ∷ d else (j, w) ∷ insert d k v

  -- `d.pop(k, None)`
  unfoldable pub pop : Dict V → String → Dict V
  pop [] k = []
  pop ((j, v) ∷ d) k = let rest = pop d k in if j == k then rest else (j, v) ∷ rest

  -- `{k: v for k, v in d.items() if keep(k)}`
  unfoldable pub keep_keys : (String → Bool) → Dict V → Dict V
  keep_keys keep [] = []
  keep_keys keep ((j, v) ∷ d) =
      let rest = keep_keys keep d in if keep j then (j, v) ∷ rest else rest

  pub get-insert :
      (d : Dict V) (k j : String) (v : V)
      → get (insert d k v) j ≡ (if k == j then some v else get d j)
  unfolding get insert
  get-insert [] k j v = refl
  get-insert ((i, w) ∷ d) k j v =
      ground (arith, eq_iff k j, eq_iff i k, eq_iff i j, get-insert d k j v)

  pub get-pop : (d : Dict V) (k j : String) → get (pop d k) j ≡ (if k == j then none else get d j)
  unfolding get pop
  get-pop [] k j = ground arith
  get-pop ((i, w) ∷ d) k j = ground (arith, eq_iff k j, eq_iff i k, eq_iff i j, get-pop d k j)

  pub get-keep_keys :
      (keep : String → Bool) (d : Dict V) (j : String)
      → get (keep_keys keep d) j ≡ (if keep j then get d j else none)
  unfolding get keep_keys
  get-keep_keys keep [] j = ground arith
  get-keep_keys keep ((i, w) ∷ d) j =
      ground (arith, eq_iff i j, get-keep_keys keep d j, λ (e : i ≡ j). ap keep e)

pub ruleset dict_laws = (get-insert, get-pop, get-keep_keys)

module _ {ℓ} {V : Type ℓ} (R : String → V → Type 0) where
  -- Every key stands in the relation to its value.
  unfoldable pub EveryEntry : Dict V → Type 0
  EveryEntry [] = Unit
  EveryEntry ((k, v) ∷ d) = R k v × EveryEntry d

  pub get-EveryEntry : (d : Dict V) (k : String) (v : V) → EveryEntry d → get d k ≡ some v → R k v
  unfolding EveryEntry get
  get-EveryEntry [] k v h e = cc
  get-EveryEntry ((j, w) ∷ d) k v h e = elim (Bool-cases (j == k)) [
    | inl q ↦
        let same : (w ≡ v) × (j ≡ k) = (ground arith, ground (arith, eq_iff j k)) in
        subst (λ u. R k u) same.0 (subst (λ i. R i w) same.1 h.0)
    | inr q ↦ get-EveryEntry d k v h.1 (rw q at e)
  ]

  pub insert-EveryEntry :
      (d : Dict V) (k : String) (v : V) → EveryEntry d → R k v → EveryEntry (insert d k v)
  unfolding EveryEntry insert
  insert-EveryEntry [] k v h r = (r, tt)
  insert-EveryEntry ((j, w) ∷ d) k v h r = elim (Bool-cases (j == k)) [
    | inl q ↦ let same : k ≡ j = ground (arith, eq_iff j k) in rw q (subst (λ i. R i v) same r, h.1)
    | inr q ↦ rw q (h.0, insert-EveryEntry d k v h.1 r)
  ]

  pub pop-EveryEntry : (d : Dict V) (k : String) → EveryEntry d → EveryEntry (pop d k)
  unfolding EveryEntry pop
  pop-EveryEntry [] k h = h
  pop-EveryEntry ((j, w) ∷ d) k h = elim (Bool-cases (j == k)) [
    | inl q ↦ rw q (pop-EveryEntry d k h.1)
    | inr q ↦ rw q (h.0, pop-EveryEntry d k h.1)
  ]

pub weaken-EveryEntry {ℓ} :
    {V : Type ℓ} (R S : String → V → Type 0) (d : Dict V)
    → ((k : String) (v : V) → R k v → S k v)
    → EveryEntry R d
    → EveryEntry S d
unfolding EveryEntry
weaken-EveryEntry R S [] more h = h
weaken-EveryEntry R S ((k, v) ∷ d) more h = (more k v h.0, weaken-EveryEntry R S d more h.1)

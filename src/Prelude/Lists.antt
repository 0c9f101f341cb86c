-- ===== src/Prelude/Lists.antt =====
-- Lists over the native numbers, and predicates on them by recursion.
use Prim.Native.Nat.{ℕ, suc, ◌+◌}
use mathlib.Core.Path.{◌≡◌, refl, ap}
use mathlib.Core.Bool.{Bool, true, false, ◌&&◌, ◌||◌}
use mathlib.Core.Logic.{◌⊎◌, inl, inr, ◌↔◌}
use mathlib.Core.Option.{Option, none, some}
use mathlib.Core.List.{List, [], ◌∷◌, ◌++◌}
use native.Mathlib.Omega.{arith}
use blocks_genesis_py.Prelude.Tests.{if◌then◌else◌, Bool-cases}

module _ {ℓ} {A : Type ℓ} where
  abbrev pub length : List A → ℕ
  length [] = 0
  length (x ∷ xs) = suc (length xs)

  abbrev pub any : (A → Bool) → List A → Bool
  any p [] = false
  any p (x ∷ xs) = p x || any p xs

  abbrev pub all : (A → Bool) → List A → Bool
  all p [] = true
  all p (x ∷ xs) = p x && all p xs

  -- `[x for x in xs if p(x)]`
  abbrev pub filter : (A → Bool) → List A → List A
  filter p [] = []
  filter p (x ∷ xs) = let rest = filter p xs in if p x then x ∷ rest else rest

  -- `next((x for x in xs if p(x)), None)`
  abbrev pub find? : (A → Bool) → List A → Option A
  find? p [] = none
  find? p (x ∷ xs) = if p x then some x else find? p xs

  -- The value that is there, or nothing, as a list.
  abbrev pub to_list : Option A → List A
  to_list none = []
  to_list (some x) = x ∷ []

  abbrev pub is_nil : List A → Bool
  is_nil [] = true
  is_nil (x ∷ xs) = false

pub length-append {ℓ} : {A : Type ℓ} (xs ys : List A) → length (xs ++ ys) ≡ length xs + length ys
length-append [] ys = omega arith
length-append (x ∷ xs) ys = omega (arith, length-append xs ys)

module _ {A : Type 0} where
  -- `x` stands in the list.
  abbrev pub Elem : A → List A → Type 0
  Elem a [] = ⊥
  Elem a (x ∷ xs) = (a ≡ x) ⊎ Elem a xs

  pub Elem-filter :
      (p : A → Bool) (a : A) (xs : List A) → Elem a (filter p xs) → Elem a xs × (p a ≡ true)
  Elem-filter p a [] h = absurd h
  Elem-filter p a (x ∷ xs) h = ground (arith, Elem-filter p a xs)

  pub Elem-any : (p : A → Bool) (xs : List A) → any p xs ≡ true → (a : A) × Elem a xs × (p a ≡ true)
  Elem-any p [] h = cc
  Elem-any p (x ∷ xs) h = elim (Bool-cases (p x)) [
    | inl e ↦ (x, inl refl, e)
    | inr e ↦ let (a, m, q) = Elem-any p xs (rw e at h) in (a, inr m, q)
  ]

  pub any-Elem : (p : A → Bool) (a : A) (xs : List A) → Elem a xs → p a ≡ true → any p xs ≡ true
  any-Elem p a [] h e = absurd h
  any-Elem p a (x ∷ xs) (inl q) e = ground (arith, ap p q)
  any-Elem p a (x ∷ xs) (inr m) e = ground (arith, any-Elem p a xs m e)

  pub all-Elem : (p : A → Bool) (a : A) (xs : List A) → all p xs ≡ true → Elem a xs → p a ≡ true
  all-Elem p a [] h m = absurd m
  all-Elem p a (x ∷ xs) h (inl q) = ground (arith, ap p q)
  all-Elem p a (x ∷ xs) h (inr m) = all-Elem p a xs (ground arith) m

  pub not_any-Elem :
      (p : A → Bool) (a : A) (xs : List A) → any p xs ≡ false → Elem a xs → p a ≡ false
  not_any-Elem p a [] h m = absurd m
  not_any-Elem p a (x ∷ xs) h (inl q) = ground (arith, ap p q)
  not_any-Elem p a (x ∷ xs) h (inr m) = not_any-Elem p a xs (ground arith) m

  pub Elem-snoc : (a : A) (xs : List A) (b : A) → Elem a (xs ++ b ∷ []) ↔ (Elem a xs ⊎ (a ≡ b))
  Elem-snoc a [] b = (
    λ h. elim h [ inl e ↦ inr e | inr m ↦ absurd m ],
    λ h. elim h [ inl m ↦ absurd m | inr e ↦ inl e ],
  )
  Elem-snoc a (x ∷ xs) b =
      let (to, from) = Elem-snoc a xs b in
      (
        λ h. elim h [
          | inl e ↦ inl (inl e)
          | inr m ↦ elim (to m) [ inl k ↦ inl (inr k) | inr e ↦ inr e ]
        ],
        λ h. elim h [
          | inl k ↦ elim k [ inl e ↦ inl e | inr m ↦ inr (from (inl m)) ]
          | inr e ↦ inr (from (inr e))
        ],
      )

  -- The first element that passes the test is an element that does.
  pub find?-Elem :
      (p : A → Bool) (xs : List A) (a : A) → find? p xs ≡ some a → Elem a xs × (p a ≡ true)
  find?-Elem p [] a h = cc
  find?-Elem p (x ∷ xs) a h = ground (arith, find?-Elem p xs a)

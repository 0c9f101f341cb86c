-- ===== src/Subscription/Scale.antt =====
-- The fields of a row of usage.
use blocks_genesis_py.Prelude.{
  ℕ, ◌≤◌, ◌<◌, String, Bool, true, false, ◌||◌, Option, none, some, ltb, Bool-cases, subst, ◌⊎◌,
  ◌≡◌, ◌↔◌, refl, inl, inr, arith,
}
use blocks_genesis_py.Prelude.Int.{ℤ, pos, negsuc}
use blocks_genesis_py.Prelude.Dict.{get}
use blocks_genesis_py.Json.{Value, is_truthy}
use blocks_genesis_py.Subscription.{
  UsageResult, Doc, Store, clamped, number, scale, overage_allowed, row, meter_key, to_result,
}

clamped_bound : (o : Option ℤ) → clamped o ≤ 6
unfolding clamped
clamped_bound none = omega arith
clamped_bound (some (pos n)) = omega arith
clamped_bound (some (negsuc n)) = omega arith

scale_bound : {Q : Type 0} (store : Store Q) (o : Option Value) → scale store o ≤ 6
unfolding scale
scale_bound store none = omega arith
scale_bound store (some v) = clamped_bound (store.int_of v)

-- A meter that refuses says so in its document.
abbrev pub Refuses : Option Value → Type 0
Refuses o = (v : Value) × (o ≡ some v) × (is_truthy v ≡ false)

overage_refused :
    {Q : Type 0} (store : Store Q) (o : Option Value) → overage_allowed store o ≡ false → Refuses o
unfolding overage_allowed
overage_refused store none h = cc
overage_refused store (some v) h = (v, refl, h)

positive : (n : ℕ) → (ltb 0 n ≡ true) ↔ (0 < n)
positive n = (λ h. ground arith, λ h. ground arith)

allowed_or :
    {Q : Type 0} (store : Store Q) (a : Bool) (o : Option Value)
    → ((a || overage_allowed store o) ≡ true) ⊎ ((a ≡ false) × Refuses o)
allowed_or store true o = inl refl
allowed_or store false o = elim (Bool-cases (overage_allowed store o)) [
  | inl e ↦ inl e
  | inr e ↦ inr (refl, overage_refused store o e)
]

-- What a row says of its document.
abbrev pub Consistent : {Q : Type 0} → Store Q → Doc → UsageResult Q → Type 0
Consistent store doc r =
    (r.quantity_scale ≤ 6)
    × ((r.is_fraction_allowed ≡ true) ↔ (0 < r.quantity_scale))
    × ((r.allowed ≡ true)
        ⊎ ((store.at_most r.used (number store (get doc "Included")) ≡ false)
            × Refuses (get doc "OverageAllowed")))

abbrev Result-Consistent : {Q : Type 0} → Store Q → Doc → Option (UsageResult Q) → Type 0
Result-Consistent store doc none = Unit
Result-Consistent store doc (some r) = Consistent store doc r

row-Consistent :
    {Q : Type 0} (store : Store Q) (doc : Doc) (k : Option String)
    → Result-Consistent store doc (row store doc k)
unfolding row
row-Consistent store doc none = tt
row-Consistent store doc (some k) =
    let a = store.at_most (number store (get doc "Used")) (number store (get doc "Included")) in
    (
      scale_bound store (get doc "QuantityScale"),
      positive (scale store (get doc "QuantityScale")),
      allowed_or store a (get doc "OverageAllowed"),
    )

-- Whatever a row of the database holds: the decimal places of its result are six at most, fractions are
-- allowed exactly if there are any, and its use is refused only beyond what is included, and where the
-- row says that overage is not allowed.
pub to_result-Consistent :
    {Q : Type 0} (store : Store Q) (doc : Doc) (r : UsageResult Q)
    → to_result store doc ≡ some r
    → Consistent store doc r
unfolding to_result
to_result-Consistent store doc r h =
    subst (λ o. Result-Consistent store doc o) h
      (row-Consistent store doc (meter_key store (get doc "MeterKey")))

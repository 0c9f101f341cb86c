-- ===== src/Messaging/Azure/Renewal.antt =====
-- `start_auto_renewal_task` of blocks_genesis/_message/azure/azure_message_worker.py.
use blocks_genesis_py.Prelude.{
  ℕ, zero, suc, ◌+◌, ◌*◌, ◌<◌, ◌≤◌, Bool, false, Option, none, some, ◌≡◌, refl, ap, subst, inl, inr,
  ltb, if◌then◌else◌, Bool-cases, arith,
}

-- The configured times, and what happens in turn `k` of the loop: whether the task was told to stop
-- when the wait of the interval is over, the seconds since the start by then, and whether the broker
-- renews the lock.
pub record Renewal : Type 0 where
  pub message_lock_renewal_interval_seconds : ℕ
  pub max_message_processing_time_in_minutes : ℕ
  pub cancelled : ℕ → Bool
  pub processing_time : ℕ → ℕ
  pub renews : ℕ → Bool

unfoldable pub max_processing_time : Renewal → ℕ
max_processing_time r = r.max_message_processing_time_in_minutes * 60

-- The renewals that were made when the loop ends, from turn `k` and `count` of them, within `fuel`
-- turns.
unfoldable pub renewals_from : Renewal → ℕ → ℕ → ℕ → Option ℕ
unfolding max_processing_time
renewals_from r zero k count = none
renewals_from r (suc fuel) k count =
    let rest = renewals_from r fuel (k + 1) (count + 1) in
    if r.cancelled k
    then some count
    else if ltb (max_processing_time r) (r.processing_time k)
    then some count
    else if r.renews k
    then rest
    else some count

plus_zero : (k : ℕ) → k + 0 ≡ k
plus_zero k = omega arith

shifted : (k fuel : ℕ) → k + suc fuel ≡ k + 1 + fuel
shifted k fuel = omega arith

not_later : (a b : ℕ) → ltb a b ≡ false → b ≤ a
not_later a b h = ground arith

renewals_from-ends :
    (r : Renewal) (fuel k : ℕ)
    → ((i : ℕ)
        → r.cancelled i ≡ false
        → (i + 1) * r.message_lock_renewal_interval_seconds ≤ r.processing_time i)
    → max_processing_time r < (k + fuel) * r.message_lock_renewal_interval_seconds
    → k * r.message_lock_renewal_interval_seconds ≤ max_processing_time r
    → (n : ℕ) × (renewals_from r fuel k k ≡ some n)
      × (n * r.message_lock_renewal_interval_seconds ≤ max_processing_time r)
unfolding renewals_from
renewals_from-ends r zero k waits short within =
    absurd
      (omega (arith, ap (λ (i : ℕ). i * r.message_lock_renewal_interval_seconds) (plus_zero k)))
renewals_from-ends r (suc fuel) k waits short within = elim (Bool-cases (r.cancelled k)) [
  | inl c ↦ (k, simp c refl, within)
  | inr c ↦ elim (Bool-cases (ltb (max_processing_time r) (r.processing_time k))) [
    | inl t ↦ (k, simp (c, t) refl, within)
    | inr t ↦ elim (Bool-cases (r.renews k)) [
      | inl w ↦
          let again =
            renewals_from-ends r fuel (k + 1) waits
              (subst (λ i. max_processing_time r < i * r.message_lock_renewal_interval_seconds)
                (shifted k fuel) short)
              (omega
                (arith, waits k c, not_later (max_processing_time r) (r.processing_time k) t)) in
          (again.0, simp (c, t, w) again.1, again.2)
      | inr w ↦ (k, simp (c, t, w) refl, within)
    ]
  ]
]

-- The renewal task of a message ends, whoever stops it, within any number of turns whose intervals
-- together are longer than the greatest processing time, and the intervals of the renewals that it has
-- made are not longer than that time; where a wait that is not cut short takes its interval.
pub renewals_from_terminates :
    (r : Renewal) (turns : ℕ)
    → ((i : ℕ)
        → r.cancelled i ≡ false
        → (i + 1) * r.message_lock_renewal_interval_seconds ≤ r.processing_time i)
    → max_processing_time r < turns * r.message_lock_renewal_interval_seconds
    → (n : ℕ) × (renewals_from r turns 0 0 ≡ some n)
      × (n * r.message_lock_renewal_interval_seconds ≤ max_processing_time r)
renewals_from_terminates r turns waits enough =
    let whole : turns ≡ 0 + turns = omega arith in
    renewals_from-ends r turns 0 waits
      (subst (λ i. max_processing_time r < i * r.message_lock_renewal_interval_seconds) whole
        enough)
      (omega arith)

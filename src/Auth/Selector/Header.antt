-- ===== src/Auth/Selector/Header.antt =====
-- When the x-blocks-idp header is read at all, and what the reported outcome means.
use blocks_genesis_py.Prelude.{
  ℕ, String, true, false, List, [], ◌∷◌, Option, some, ◌≡◌, ◌≢◌, refl, sym, ◌∙◌, ◌⊎◌, inl, inr, ◌↔◌,
  is_nil, filter, length, Bool-cases, arith,
}
use blocks_genesis_py.Prelude.Text.{is_blank}
use blocks_genesis_py.Auth.Provider.{ThirdPartyJwtProvider}
use blocks_genesis_py.Auth.Selector.{
  ThirdPartyProviderSelection, selected, no_providers, issuer_unmatched, issuer_absent_unmatched,
  miss, ThirdPartyProviderResult, is_selected, is_absent, same_issuer, by_header, pick, narrow,
  select,
}

count-by_header :
    (candidates : List ThirdPartyJwtProvider) (k : Option String)
    → (by_header candidates k).candidate_count ≡ length candidates
unfolding by_header
count-by_header candidates k = ground arith

-- The header cannot change a result with one candidate.
pick_one :
    (n : ℕ) (candidates : List ThirdPartyJwtProvider) (k k' : Option String)
    → is_selected (pick n candidates k) ≡ true
    → (pick n candidates k).candidate_count ≡ 1
    → pick n candidates k' ≡ pick n candidates k
unfolding pick is_selected
pick_one n [] k k' h e = refl
pick_one n (p ∷ []) k k' h e = refl
pick_one n (p ∷ q ∷ rest) k k' h e = absurd (omega (arith, count-by_header (p ∷ q ∷ rest) k))

consistent_by_header :
    (candidates : List ThirdPartyJwtProvider) (k : Option String)
    → ((by_header candidates k).outcome ≡ selected) ↔ (is_selected (by_header candidates k) ≡ true)
unfolding by_header is_selected
consistent_by_header candidates k = ground arith

consistent_pick :
    (n : ℕ) (candidates : List ThirdPartyJwtProvider) (k : Option String)
    → ((pick n candidates k).outcome ≡ selected) ↔ (is_selected (pick n candidates k) ≡ true)
unfolding pick is_selected
consistent_pick n [] k = ground arith
consistent_pick n (p ∷ []) k = ground arith
consistent_pick n (p ∷ q ∷ rest) k = consistent_by_header (p ∷ q ∷ rest) k

-- A selection is a miss whatever the header, or the narrowing of a lane that the header does not
-- choose.
record Miss (f : Option String → ThirdPartyProviderResult) : Type 0 where
  result : ThirdPartyProviderResult
  nothing : is_selected result ≡ false
  unselected : result.outcome ≢ selected
  same : (k : Option String) → f k ≡ result

record Lane (f : Option String → ThirdPartyProviderResult) (audiences : Option (List String))
    : Type 0 where
  matched : List ThirdPartyJwtProvider
  same : (k : Option String) → f k ≡ narrow matched audiences k

missed :
    (f : Option String → ThirdPartyProviderResult) (why : ThirdPartyProviderSelection) (n : ℕ)
    → why ≢ selected
    → ((k : Option String) → f k ≡ miss why n)
    → Miss f
unfolding is_selected
missed f why n u s = record { result = miss why n; nothing = refl; unselected = u; same = s }

module _ (providers : List ThirdPartyJwtProvider) (issuer : Option String)
    (audiences : Option (List String)) where
  select_split :
      Miss (select (some providers) issuer audiences)
      ⊎ Lane (select (some providers) issuer audiences) audiences
  unfolding select is_selected
  select_split = elim (Bool-cases (is_nil providers)) [
    | inl e ↦ inl (missed _ no_providers 0 (λ q. cc q) (λ k. rw e))
    | inr e ↦ elim (Bool-cases (is_absent issuer)) [
      | inl a ↦ elim (Bool-cases (is_nil (filter (λ p. is_blank p.issuer) providers))) [
        | inl x ↦ inl (missed _ issuer_absent_unmatched 0 (λ q. cc q) (λ k. rw (e, a, x)))
        | inr x ↦ inr (record {
          matched = filter (λ p. is_blank p.issuer) providers;
          same = λ k. rw (e, a, x);
        })
      ]
      | inr a ↦ elim (Bool-cases (is_nil (filter (same_issuer issuer) providers))) [
        | inl x ↦ inl (missed _ issuer_unmatched 0 (λ q. cc q) (λ k. rw (e, a, x)))
        | inr x ↦
            inr
              (record { matched = filter (same_issuer issuer) providers; same = λ k. rw (e, a, x) })
      ]
    ]
  ]

  -- The outcome is SELECTED exactly when a provider is returned.
  pub select-outcome_iff :
      (k : Option String)
      → ((select (some providers) issuer audiences k).outcome ≡ selected)
        ↔ (is_selected (select (some providers) issuer audiences k) ≡ true)
  select-outcome_iff k = elim select_split [
    | inl m ↦ rw (m.same k) (λ e. absurd (m.unselected e), λ e. cc (e, m.nothing))
    | inr l ↦ rw (l.same k) (unfold narrow in consistent_pick _ _ k)
  ]

  -- Where a single candidate was selected, the header is not read: every header gives the result.
  pub select-header_unread :
      (k k' : Option String)
      → is_selected (select (some providers) issuer audiences k) ≡ true
      → (select (some providers) issuer audiences k).candidate_count ≡ 1
      → select (some providers) issuer audiences k' ≡ select (some providers) issuer audiences k
  select-header_unread k k' h e = elim select_split [
    | inl m ↦ m.same k' ∙ sym (m.same k)
    | inr l ↦
        rw (l.same k, l.same k')
          (unfold narrow in pick_one _ _ k k' (rw (l.same k) at h) (rw (l.same k) at e))
  ]

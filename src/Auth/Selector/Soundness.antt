-- ===== src/Auth/Selector/Soundness.antt =====
-- What the selection promises: which providers a token can reach, and that the header decides only
-- among several candidates.
use blocks_genesis_py.Prelude.{
  ℕ, String, Bool, ◌==◌, true, false, List, [], ◌∷◌, Option, none, some, ◌≡◌, refl, sym, ap, ◌⊎◌,
  inl, inr, is_nil, filter, find?, length, Elem, Elem-filter, find?-Elem, Bool-cases, arith, eq_iff,
  if◌then◌else◌,
}
use blocks_genesis_py.Prelude.Text.{is_blank}
use blocks_genesis_py.Auth.Provider.{ThirdPartyJwtProvider}
use blocks_genesis_py.Auth.Selector.{
  ThirdPartyProviderResult, is_absent, audience_matches, same_issuer, has_key, by_header, pick,
  narrow, select,
}

-- The provider declares exactly the token's issuer; a token without one needs a provider that
-- declares none.
abbrev pub InLane : Option String → ThirdPartyJwtProvider → Type 0
InLane none p = is_blank p.issuer ≡ true
InLane (some issuer) p = if is_blank issuer then is_blank p.issuer ≡ true else p.issuer ≡ issuer

-- The selected provider of a result.
abbrev pub Selects : ThirdPartyProviderResult → ThirdPartyJwtProvider → Type 0
Selects r p = r.provider ≡ some p

record Narrowed (matched : List ThirdPartyJwtProvider) (audiences : Option (List String))
    (header_key : Option String) (p : ThirdPartyJwtProvider) : Type 0 where
  listed : Elem p matched
  accepts : audience_matches p audiences ≡ true
  told_apart :
      (filter (λ q. audience_matches q audiences) matched ≡ p ∷ []) ⊎ (header_key ≡ some p.key)

has_key-eq :
    (header_key : Option String) (p : ThirdPartyJwtProvider)
    → has_key header_key p ≡ true
    → header_key ≡ some p.key
unfolding has_key
has_key-eq none p h = cc
has_key-eq (some k) p h = ap some (sym ((eq_iff p.key k).0 h))

by_header-Selects :
    (header_key : Option String) (candidates : List ThirdPartyJwtProvider)
    (p : ThirdPartyJwtProvider)
    → Selects (by_header candidates header_key) p
    → Elem p candidates × (header_key ≡ some p.key)
unfolding by_header
by_header-Selects header_key candidates p h =
    let found : find? (has_key header_key) candidates ≡ some p = ground arith in
    let (listed, named) = find?-Elem (has_key header_key) candidates p found in
    (listed, has_key-eq header_key p named)

pick_told_apart :
    (n : ℕ) (candidates : List ThirdPartyJwtProvider) (header_key : Option String)
    (p : ThirdPartyJwtProvider)
    → Selects (pick n candidates header_key) p
    → Elem p candidates × ((candidates ≡ p ∷ []) ⊎ (header_key ≡ some p.key))
unfolding pick
pick_told_apart n [] header_key p h = cc
pick_told_apart n (q ∷ []) header_key p h =
    let same : q ≡ p = ground arith in (inl (sym same), inl (ap (λ x. x ∷ []) same))
pick_told_apart n (q ∷ r ∷ rest) header_key p h =
    let (m, named) = by_header-Selects header_key (q ∷ r ∷ rest) p h in (m, inr named)

module _ (matched : List ThirdPartyJwtProvider) (audiences : Option (List String))
    (header_key : Option String) (p : ThirdPartyJwtProvider) where
  narrow-Selects :
      Selects (narrow matched audiences header_key) p → Narrowed matched audiences header_key p
  unfolding narrow
  narrow-Selects h =
      let (m, told_apart) = pick_told_apart (length matched) _ header_key p h in
      let (listed, accepts) = Elem-filter (λ q. audience_matches q audiences) p matched m in
      record { listed = listed; accepts = accepts; told_apart = told_apart }

-- Whether the provider declares exactly the token's issuer, or none where the token has none.
abbrev stands_in : Option String → ThirdPartyJwtProvider → Bool
stands_in none p = is_blank p.issuer
stands_in (some issuer) p = if is_blank issuer then is_blank p.issuer else p.issuer == issuer

-- The configured providers of the token's issuer that accept its audience.
abbrev pub candidates_for :
    List ThirdPartyJwtProvider → Option String → Option (List String) → List ThirdPartyJwtProvider
candidates_for providers issuer audiences =
    filter (λ p. audience_matches p audiences) (filter (stands_in issuer) providers)

-- What `select` promises of the provider that it selects: it is the one candidate, or several are told
-- apart by the header, which names it.
pub record Sound (providers : List ThirdPartyJwtProvider) (issuer : Option String)
    (audiences : Option (List String)) (header_key : Option String) (p : ThirdPartyJwtProvider)
    : Type 0 where
  pub listed : Elem p providers
  pub in_lane : InLane issuer p
  pub accepts : audience_matches p audiences ≡ true
  pub told_apart : (candidates_for providers issuer audiences ≡ p ∷ []) ⊎ (header_key ≡ some p.key)

stands_in-absent :
    (issuer : Option String) (providers : List ThirdPartyJwtProvider)
    → is_absent issuer ≡ true
    → filter (stands_in issuer) providers ≡ filter (λ p. is_blank p.issuer) providers
stands_in-absent none providers e = refl
stands_in-absent (some i) providers e =
    ap (λ b. filter (λ p. if b then is_blank p.issuer else p.issuer == i) providers) e

stands_in-issuer :
    (issuer : Option String) (providers : List ThirdPartyJwtProvider)
    → is_absent issuer ≡ false
    → filter (stands_in issuer) providers ≡ filter (same_issuer issuer) providers
unfolding same_issuer
stands_in-issuer none providers e = cc
stands_in-issuer (some i) providers e =
    ap (λ b. filter (λ p. if b then is_blank p.issuer else p.issuer == i) providers) e

same_issuer-InLane :
    (issuer : Option String) (p : ThirdPartyJwtProvider)
    → is_absent issuer ≡ false
    → same_issuer issuer p ≡ true
    → InLane issuer p
unfolding same_issuer
same_issuer-InLane none p h e = cc
same_issuer-InLane (some i) p h e = rw h ((eq_iff p.issuer i).0 e)

absent-InLane :
    (issuer : Option String) (p : ThirdPartyJwtProvider)
    → is_absent issuer ≡ true
    → is_blank p.issuer ≡ true
    → InLane issuer p
absent-InLane none p h e = e
absent-InLane (some i) p h e = rw h e

module _ (providers : List ThirdPartyJwtProvider) (issuer : Option String)
    (audiences : Option (List String)) (header_key : Option String) where
  abbrev issuerless : List ThirdPartyJwtProvider
  issuerless = filter (λ p. is_blank p.issuer) providers

  abbrev by_issuer : List ThirdPartyJwtProvider
  by_issuer = filter (same_issuer issuer) providers

  abbrev result : ThirdPartyProviderResult
  result = select (some providers) issuer audiences header_key

  -- The selection is a miss, or a narrowing of one of the two lanes.
  select_cases :
      (result.provider ≡ none)
      ⊎ ((is_absent issuer ≡ true) × (result ≡ narrow issuerless audiences header_key))
      ⊎ ((is_absent issuer ≡ false) × (result ≡ narrow by_issuer audiences header_key))
  unfolding select
  select_cases = elim (Bool-cases (is_nil providers)) [
    | inl e ↦ inl (rw e)
    | inr e ↦ elim (Bool-cases (is_absent issuer)) [
      | inl a ↦ elim (Bool-cases (is_nil issuerless)) [
        | inl x ↦ inl (rw (e, a, x))
        | inr x ↦ inr (inl (a, rw (e, a, x)))
      ]
      | inr a ↦ elim (Bool-cases (is_nil by_issuer)) [
        | inl x ↦ inl (rw (e, a, x))
        | inr x ↦ inr (inr (a, rw (e, a, x)))
      ]
    ]
  ]

  -- A selected provider is configured, stands in the token's lane, accepts its audience, and is
  -- either the only candidate or the one that the header names.
  pub select-Sound :
      (p : ThirdPartyJwtProvider) → Selects result p → Sound providers issuer audiences header_key p
  select-Sound p h = elim select_cases [
    | inl e ↦ cc
    | inr c ↦ elim c [
      | inl (a, e) ↦
          let n = narrow-Selects issuerless audiences header_key p (rw e at h) in
          let (listed, blank) = Elem-filter (λ q. is_blank q.issuer) p providers n.listed in
          record {
            listed = listed;
            in_lane = absent-InLane issuer p a blank;
            accepts = n.accepts;
            told_apart = rw (stands_in-absent issuer providers a) n.told_apart;
          }
      | inr (a, e) ↦
          let n = narrow-Selects by_issuer audiences header_key p (rw e at h) in
          let (listed, same) = Elem-filter (same_issuer issuer) p providers n.listed in
          record {
            listed = listed;
            in_lane = same_issuer-InLane issuer p a same;
            accepts = n.accepts;
            told_apart = rw (stands_in-issuer issuer providers a) n.told_apart;
          }
    ]
  ]

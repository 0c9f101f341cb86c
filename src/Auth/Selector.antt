-- ===== src/Auth/Selector.antt =====
-- blocks_genesis/_auth/third_party_selector.py: which provider a token belongs to.
pub mod Header
pub mod Soundness
use blocks_genesis_py.Prelude.{
  ℕ, String, Bool, true, false, List, [], ◌∷◌, Option, none, some, any, is_nil, is_some, filter,
  find?, length, ◌==◌, if◌then◌else◌,
}
use blocks_genesis_py.Prelude.Text.{is_blank}
use blocks_genesis_py.Auth.Provider.{ThirdPartyJwtProvider}

-- Why the selection ended as it did.
pub data ThirdPartyProviderSelection : Type 0 where
  selected no_providers issuer_unmatched audience_unmatched ambiguous_no_header
        ambiguous_header_unmatched issuer_absent_unmatched :
      ThirdPartyProviderSelection

pub record ThirdPartyProviderResult : Type 0 where
  pub provider : Option ThirdPartyJwtProvider
  pub outcome : ThirdPartyProviderSelection
  pub candidate_count : ℕ

unfoldable pub is_selected : ThirdPartyProviderResult → Bool
is_selected r = is_some r.provider

abbrev miss : ThirdPartyProviderSelection → ℕ → ThirdPartyProviderResult
miss why n = record { provider = none; outcome = why; candidate_count = n }

-- `not s or not s.strip()`
abbrev pub is_absent : Option String → Bool
is_absent none = true
is_absent (some s) = is_blank s

abbrev pub list_of : Option (List String) → List String
list_of none = []
list_of (some xs) = xs

unfoldable pub audience_matches : ThirdPartyJwtProvider → Option (List String) → Bool
audience_matches p audiences =
    if is_nil p.audiences
    then true
    else any (λ a. any (λ b. b == a) p.audiences) (list_of audiences)

-- `p.issuer == issuer`
same_issuer : Option String → ThirdPartyJwtProvider → Bool
same_issuer none p = false
same_issuer (some issuer) p = p.issuer == issuer

has_key : Option String → ThirdPartyJwtProvider → Bool
has_key none p = false
has_key (some header_key) p = p.key == header_key

-- Several candidates, told apart by the header alone.
by_header : List ThirdPartyJwtProvider → Option String → ThirdPartyProviderResult
unfolding has_key
by_header candidates header_key =
    if is_absent header_key
    then miss ambiguous_no_header (length candidates)
    else elim (find? (has_key header_key) candidates) [
      | none ↦ miss ambiguous_header_unmatched (length candidates)
      | some named ↦ record {
        provider = some named;
        outcome = selected;
        candidate_count = length candidates;
      }
    ]

-- The tests on the number of candidates; `n` providers matched the issuer.
pick : ℕ → List ThirdPartyJwtProvider → Option String → ThirdPartyProviderResult
pick n [] header_key = miss audience_unmatched n
pick n (p ∷ []) header_key = record { provider = some p; outcome = selected; candidate_count = 1 }
pick n (p ∷ q ∷ rest) header_key = by_header (p ∷ q ∷ rest) header_key

-- `_narrow`
unfoldable pub narrow :
    List ThirdPartyJwtProvider → Option (List String) → Option String → ThirdPartyProviderResult
unfolding pick by_header audience_matches
narrow matched audiences header_key =
    pick (length matched) (filter (λ p. audience_matches p audiences) matched) header_key

unfoldable pub select :
    Option (List ThirdPartyJwtProvider)
    → Option String
    → Option (List String)
    → Option String
    → ThirdPartyProviderResult
unfolding same_issuer
select none issuer audiences header_key = miss no_providers 0
select (some providers) issuer audiences header_key =
    let issuerless = filter (λ p. is_blank p.issuer) providers in
    let by_issuer = filter (same_issuer issuer) providers in
    if is_nil providers
    then miss no_providers 0
    else if is_absent issuer
    then if is_nil issuerless
      then miss issuer_absent_unmatched 0
      else narrow issuerless audiences header_key
    else if is_nil by_issuer
    then miss issuer_unmatched 0
    else narrow by_issuer audiences header_key

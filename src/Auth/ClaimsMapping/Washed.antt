-- ===== src/Auth/ClaimsMapping/Washed.antt =====
-- The mapping applied to claims that `strip_reserved_claims` has washed, as `authenticate` applies it.
use blocks_genesis_py.Prelude.{
  String, Bool, true, not, [], none, some, ◌≡◌, refl, ◌∙◌, subst, ◌&&◌, is_some, all, Elem-any,
  all-Elem, arith, ◌==◌, eq_iff,
}
use blocks_genesis_py.Prelude.Dict.{get}
use blocks_genesis_py.Prelude.Text.{lower, split}
use blocks_genesis_py.Json.{str, is_truthy}
use blocks_genesis_py.Context.Claims.{Claims, reserved_claims, is_reserved, strip_reserved_claims}
use blocks_genesis_py.Context.Claims.Reserved.{get-strip_reserved_claims}
use blocks_genesis_py.Auth.Provider.{ThirdPartyJwtProvider}
use blocks_genesis_py.Auth.ClaimsMapping.{
  Python, Mapped, second?, ends?, extract_claim_value, resolve_mapped_claim,
  extract_roles_from_claim, map_third_party_claims,
}

washed_of_reserved :
    (claims : Claims) (k : String)
    → is_reserved k ≡ true
    → get (strip_reserved_claims claims) k ≡ none
washed_of_reserved claims k h = get-strip_reserved_claims claims k ∙ rw h

-- No reserved name holds a dot, so none addresses a property inside another claim.
abbrev is_plain : String → Bool
is_plain k = not (is_some (second? (split b'.' k))) && not (is_some (ends? (split b'.' k)))

all_plain : all is_plain reserved_claims ≡ true
unfolding second? ends? split
all_plain = refl

plain_of_reserved : (k : String) → is_reserved k ≡ true → is_plain k ≡ true
plain_of_reserved k h =
    let (r, listed, same) = Elem-any (λ r. r == k) reserved_claims h in
    subst (λ x. is_plain x ≡ true) ((eq_iff r k).0 same)
      (all-Elem is_plain r reserved_claims all_plain listed)

module _ (python : Python) (claims : Claims) where
  -- A mapping that names a reserved claim resolves to nothing once the claims are washed.
  pub extract_claim_value_of_reserved :
      (k : String)
      → is_reserved k ≡ true
      → extract_claim_value python (strip_reserved_claims claims) k ≡ ""
  unfolding extract_claim_value
  extract_claim_value_of_reserved k h =
      ground (arith, washed_of_reserved claims k h, plain_of_reserved k h)

  -- So does a mapping of the roles.
  pub extract_roles_of_reserved :
      (k : String)
      → is_reserved k ≡ true
      → extract_roles_from_claim python (strip_reserved_claims claims) k ≡ []
  unfolding extract_roles_from_claim
  extract_roles_of_reserved k h =
      ground (arith, washed_of_reserved claims k h, plain_of_reserved k h)

  -- After the wash no standard e-mail claim is left: a user name mapped to "email" is always empty.
  pub map_user_name_of_email :
      (provider : ThirdPartyJwtProvider) (m : Mapped)
      → lower provider.claims_mapping.user_name ≡ "email"
      → map_third_party_claims python (strip_reserved_claims claims) provider ≡ some m
      → m.user_name ≡ str ""
  unfolding map_third_party_claims
  map_user_name_of_email provider m h e = ground (
    arith,
    washed_of_reserved claims "email" refl,
    eq_iff (lower provider.claims_mapping.user_name) "email",
  )

  -- The mapped e-mail is then the one that the provider's mapping resolves, never a standard claim.
  pub map_email_washed :
      (provider : ThirdPartyJwtProvider) (m : Mapped)
      → map_third_party_claims python (strip_reserved_claims claims) provider ≡ some m
      → m.email
        ≡ str (
            resolve_mapped_claim python
              (strip_reserved_claims claims)
              provider.claims_mapping.email)
  unfolding map_third_party_claims is_truthy
  map_email_washed provider m e = ground (arith, washed_of_reserved claims "email" refl)

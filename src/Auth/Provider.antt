-- ===== src/Auth/Provider.antt =====
-- blocks_genesis/_auth/third_party_provider.py: the configuration of one external identity provider.
use blocks_genesis_py.Prelude.{
  ℕ, String, Bool, not, List, [], ◌∷◌, Option, none, some, any, if◌then◌else◌,
}
use blocks_genesis_py.Prelude.Int.{ℤ}
use blocks_genesis_py.Prelude.Text.{is_blank, strip}
use blocks_genesis_py.Auth.Algorithm.{JwtSigningAlgorithm, of_int}

pub record ThirdPartyClaimsMapping : Type 0 where
  pub user_id : String
  pub email : String
  pub user_name : String
  pub name : String
  pub roles : String

unfoldable pub is_configured : ThirdPartyClaimsMapping → Bool
is_configured m =
    any (λ s. not (is_blank s)) (m.user_id ∷ m.email ∷ m.user_name ∷ m.name ∷ m.roles ∷ [])

-- `certificate_not_after` is a time in seconds.
pub record ThirdPartyJwtProvider : Type 0 where
  pub tenant_id : String
  pub key : String
  pub provider_name : String
  pub is_active : Bool
  pub issuer : String
  pub audiences : List String
  pub algorithms : List JwtSigningAlgorithm
  pub jwks_url : String
  pub public_certificate_path : String
  pub public_certificate_password_cipher : String
  pub signing_secret_cipher : String
  pub certificate_subject : String
  pub certificate_thumbprint : String
  pub certificate_not_after : Option ℕ
  pub cookie_key : String
  pub default_organization_id : String
  pub claims_mapping : ThirdPartyClaimsMapping

abbrev pub default_organization : String
default_organization = "default"

-- `_normalise_organization`; `none` is a missing value.
unfoldable pub normalise_organization : Option String → String
normalise_organization none = default_organization
normalise_organization (some value) = if is_blank value then default_organization else strip value

-- `_drop_unknown_algorithms`, on the stored numbers.
unfoldable pub drop_unknown_algorithms : List ℤ → List JwtSigningAlgorithm
drop_unknown_algorithms [] = []
drop_unknown_algorithms (item ∷ value) =
    let known = drop_unknown_algorithms value in
    elim (of_int item) [ none ↦ known | some a ↦ a ∷ known ]

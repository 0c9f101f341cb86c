-- ===== src/Auth/Primary/Ambient.antt =====
-- Primary validation changes the cache at most.
use blocks_genesis_py.Prelude.{String, Option, none, some}
use blocks_genesis_py.Tenancy.Tenant.{Tenant, JwtTokenParameters}
use blocks_genesis_py.Auth.Host.{Host, Request}
use blocks_genesis_py.Auth.Exec.Keeps.{Keeps, keeps_rules}
use blocks_genesis_py.Auth.Certificate.Ambient.{get_tenant_cert-Keeps}
use blocks_genesis_py.Auth.Primary.{validate_under, validate_jwt_token}

module _ (host : Host) (token : String) (tenant : Tenant) (request : Request) where
  validate_under-Keeps :
      (o : Option JwtTokenParameters) → Keeps (validate_under host token tenant request o)
  unfolding validate_under
  validate_under-Keeps none = search keeps_rules
  validate_under-Keeps (some parameters) = search (keeps_rules, get_tenant_cert-Keeps)

  pub validate_jwt_token-Keeps : Keeps (validate_jwt_token host token tenant request)
  unfolding validate_jwt_token
  validate_jwt_token-Keeps = validate_under-Keeps tenant.jwt_token_parameters

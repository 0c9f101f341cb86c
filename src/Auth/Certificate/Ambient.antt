-- ===== src/Auth/Certificate/Ambient.antt =====
-- Reading a certificate changes the cache at most.
use blocks_genesis_py.Prelude.{ℕ, String, Option, none, some, arith}
use blocks_genesis_py.Crypto.{Bytes}
use blocks_genesis_py.Tenancy.Tenant.{Tenant, JwtTokenParameters}
use blocks_genesis_py.Auth.Host.{Host, World}
use blocks_genesis_py.Auth.Exec.Keeps.{Keeps, SameAmbient, keeps_rules}
use blocks_genesis_py.Auth.Certificate.{
  cache_bytes, cache_tenant_cert, fetched, cert_for, get_tenant_cert,
}

module _ (host : Host) where
  pub cache_bytes-SameAmbient :
      (key : String) (bytes : Bytes) (ttl : ℕ) (w : World)
      → SameAmbient (cache_bytes host key bytes ttl w) w
  unfolding cache_bytes
  cache_bytes-SameAmbient key bytes ttl w = ground arith

  cache_tenant_cert-SameAmbient :
      (key : String) (bytes : Bytes) (parameters : JwtTokenParameters) (w : World)
      → SameAmbient (cache_tenant_cert host key bytes parameters w) w
  unfolding cache_tenant_cert
  cache_tenant_cert-SameAmbient key bytes parameters w = ground arith

  fetched-Keeps :
      (key : String) (parameters : JwtTokenParameters) (o : Option Bytes)
      → Keeps (fetched host key parameters o)
  unfolding fetched
  fetched-Keeps key parameters none = search keeps_rules
  fetched-Keeps key parameters (some bytes) = search (keeps_rules, cache_tenant_cert-SameAmbient)

  cert_for-Keeps :
      (tenant_id : String) (o : Option JwtTokenParameters) → Keeps (cert_for host tenant_id o)
  unfolding cert_for
  cert_for-Keeps tenant_id none = search keeps_rules
  cert_for-Keeps tenant_id (some parameters) = search (keeps_rules, fetched-Keeps)

  pub get_tenant_cert-Keeps :
      (tenant : Tenant) (tenant_id : String) → Keeps (get_tenant_cert host tenant tenant_id)
  unfolding get_tenant_cert
  get_tenant_cert-Keeps tenant tenant_id = cert_for-Keeps tenant_id tenant.jwt_token_parameters

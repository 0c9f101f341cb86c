-- ===== src/Auth/Keys/Ambient.antt =====
-- Resolving a key changes the cache at most.
use blocks_genesis_py.Prelude.{String, Option, none, some}
use blocks_genesis_py.Crypto.{Bytes}
use blocks_genesis_py.Tenancy.Tenant.{Tenant}
use blocks_genesis_py.Auth.Provider.{ThirdPartyJwtProvider}
use blocks_genesis_py.Auth.Host.{Host}
use blocks_genesis_py.Auth.Exec.Keeps.{Keeps, keeps_rules}
use blocks_genesis_py.Auth.Certificate.Ambient.{cache_bytes-SameAmbient}
use blocks_genesis_py.Auth.Keys.{
  decrypt_provider_secret, newly_fetched, provider_certificate, certificate_with, after_passphrase,
  resolve_certificate_key, symmetric_key, asymmetric_key, resolve_provider_key,
}

module _ (host : Host) where
  secret-Keeps :
      (tenant : Tenant) (cipher : String) → Keeps (decrypt_provider_secret host tenant cipher)
  unfolding decrypt_provider_secret
  secret-Keeps tenant cipher = search keeps_rules

  newly_fetched-Keeps :
      (cache_key : String) (o : Option Bytes) → Keeps (newly_fetched host cache_key o)
  unfolding newly_fetched
  newly_fetched-Keeps cache_key none = search keeps_rules
  newly_fetched-Keeps cache_key (some bytes) = search (keeps_rules, cache_bytes-SameAmbient)

  provider_certificate-Keeps :
      (cache_key path : String) → Keeps (provider_certificate host cache_key path)
  unfolding provider_certificate
  provider_certificate-Keeps cache_key path = search (keeps_rules, newly_fetched-Keeps)

  certificate_with-Keeps :
      (provider : ThirdPartyJwtProvider) (password : Option String)
      → Keeps (certificate_with host provider password)
  unfolding certificate_with
  certificate_with-Keeps provider password = search (keeps_rules, provider_certificate-Keeps)

  after_passphrase-Keeps :
      (provider : ThirdPartyJwtProvider) (password : Option String)
      → Keeps (after_passphrase host provider password)
  unfolding after_passphrase
  after_passphrase-Keeps provider none = search keeps_rules
  after_passphrase-Keeps provider (some p) = certificate_with-Keeps provider (some p)

  certificate_key-Keeps :
      (tenant : Tenant) (provider : ThirdPartyJwtProvider)
      → Keeps (resolve_certificate_key host tenant provider)
  unfolding resolve_certificate_key
  certificate_key-Keeps tenant provider =
      search (keeps_rules, certificate_with-Keeps, secret-Keeps, after_passphrase-Keeps)

  symmetric_key-Keeps :
      (tenant : Tenant) (provider : ThirdPartyJwtProvider)
      → Keeps (symmetric_key host tenant provider)
  unfolding symmetric_key
  symmetric_key-Keeps tenant provider = search (keeps_rules, secret-Keeps)

  asymmetric_key-Keeps :
      (token : String) (tenant : Tenant) (provider : ThirdPartyJwtProvider)
      → Keeps (asymmetric_key host token tenant provider)
  unfolding asymmetric_key
  asymmetric_key-Keeps token tenant provider = search (keeps_rules, certificate_key-Keeps)

  pub resolve_provider_key-Keeps :
      (token : String) (tenant : Tenant) (provider : ThirdPartyJwtProvider)
      → Keeps (resolve_provider_key host token tenant provider)
  unfolding resolve_provider_key
  resolve_provider_key-Keeps token tenant provider =
      search (keeps_rules, symmetric_key-Keeps, asymmetric_key-Keeps)

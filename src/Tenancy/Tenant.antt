-- ===== src/Tenancy/Tenant.antt =====
-- blocks_genesis/_tenant/tenant.py: the configuration of one tenant. A time is in seconds.
use blocks_genesis_py.Prelude.{ℕ, String, Bool, List, Option}

pub record JwtTokenParameters : Type 0 where
  pub issuer : String
  pub subject : String
  pub audiences : List String
  pub public_certificate_path : String
  pub public_certificate_password : String
  pub private_certificate_password : String
  pub certificate_storage_type : ℕ
  pub certificate_valid_for_number_of_days : ℕ
  pub issue_date : Option ℕ

pub record ThirdPartyJwtTokenParameters : Type 0 where
  pub provider_name : String
  pub issuer : String
  pub subject : String
  pub audiences : List String
  pub public_certificate_path : String
  pub jwks_url : String
  pub public_certificate_password : String
  pub cookie_key : String

pub record Application : Type 0 where
  pub domain : String
  pub cookie_domain : String
  pub is_domain_verified : Bool

pub record Tenant : Type 0 where
  pub tenant_id : String
  pub is_accept_blocks_terms : Bool
  pub is_use_blocks_exclusively : Bool
  pub name : Option String
  pub db_name : String
  pub applications : List Application
  pub is_disabled : Bool
  pub db_connection_string : String
  pub tenant_salt : String
  pub jwt_token_parameters : Option JwtTokenParameters
  pub third_party_jwt_token_parameters : Option ThirdPartyJwtTokenParameters
  pub is_third_party_jwt_enabled : Bool
  pub is_root_tenant : Bool
  pub environment : String
  pub tenant_group_id : String

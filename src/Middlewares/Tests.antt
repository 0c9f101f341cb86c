-- ===== src/Middlewares/Tests.antt =====
-- Requests through the tenant middleware.
use blocks_genesis_py.Prelude.{true, false, [], ◌∷◌, none, some, ◌==◌, if◌then◌else◌}
use blocks_genesis_py.Prelude.Result.{Result}
use blocks_genesis_py.Context.Record.{empty_context}
use blocks_genesis_py.Tenancy.Tenant.{Tenant}
use blocks_genesis_py.Auth.Host.{World}
use blocks_genesis_py.Middlewares.{Site, HttpRequest}

abbrev tenant : Tenant
tenant = record {
  tenant_id = "T";
  is_accept_blocks_terms = true;
  is_use_blocks_exclusively = false;
  name = none;
  db_name = "db";
  applications =
      record { domain = "https://t.example"; cookie_domain = ""; is_domain_verified = true } ∷ [];
  is_disabled = false;
  db_connection_string = "";
  tenant_salt = "salt";
  jwt_token_parameters = none;
  third_party_jwt_token_parameters = none;
  is_third_party_jwt_enabled = false;
  is_root_tenant = false;
  environment = "";
  tenant_group_id = "";
}

abbrev site : Site
site = record {
  hostname = λ url. if url == "https://t.example" then some "t.example" else none;
  service_up = true;
  get_tenant = λ id. some tenant;
  get_tenant_by_domain = λ domain. none;
  is_int = λ s. true;
  now = "2026-01-01T00:00:00";
}

abbrev request : HttpRequest
request = record {
  request = record {
    headers = ("x-blocks-key", "T") ∷ ("origin", "https://t.example") ∷ [];
    query_params = [];
    cookies = [];
    url = "https://t.example/api/x";
  };
  path = "/api/x";
  base_host = some "t.example";
}

abbrev world : World
world = record { context = some empty_context; auth_claims = none; cert_cache = [] }

-- ===== src/Context/Record.antt =====
-- The fields of `BlocksContext` in blocks_genesis/_auth/blocks_context.py. A datetime is held as its
-- `isoformat()` text.
use blocks_genesis_py.Prelude.{String, Bool, false, List, [], Option, none}

pub record BlocksContext : Type 0 where
  pub tenant_id : String
  pub roles : List String
  pub user_id : String
  pub expire_on : Option String
  pub request_uri : String
  pub oauth_token : String
  pub organization_id : String
  pub is_authenticated : Bool
  pub email : String
  pub permissions : List String
  pub user_name : String
  pub phone_number : String
  pub display_name : String
  pub original_tenant_id : String
  pub application_domain : String
  pub impersonated : Bool
  pub impersonation_session_id : String
  pub client_id : String
  pub session_id : String

-- `BlocksContext()`
abbrev pub empty_context : BlocksContext
empty_context = record {
  tenant_id = "";
  roles = [];
  user_id = "";
  expire_on = none;
  request_uri = "";
  oauth_token = "";
  organization_id = "";
  is_authenticated = false;
  email = "";
  permissions = [];
  user_name = "";
  phone_number = "";
  display_name = "";
  original_tenant_id = "";
  application_domain = "";
  impersonated = false;
  impersonation_session_id = "";
  client_id = "";
  session_id = "";
}

-- ===== src/Context/Transport.antt =====
-- `create_sanitized_for_transport` and `from_transport` of blocks_genesis/_auth/blocks_context.py.
pub mod RoundTrip
use blocks_genesis_py.Prelude.{
  ◌-◌, String, ◌||◌, List, [], ◌∷◌, Option, none, some, is_nil, ◌==◌, if◌then◌else◌,
}
use blocks_genesis_py.Prelude.Dict.{Dict, get}
use blocks_genesis_py.Prelude.Result.{Result, ok, ◌>>=◌}
use blocks_genesis_py.Prelude.Text.{is_empty, contains, split, drop, len, or_text, concat}
use blocks_genesis_py.Json.{Value, null, bool, str, arr, strings}
use blocks_genesis_py.Context.Record.{BlocksContext}
use blocks_genesis_py.Context.Fields.{
  Pydantic, ValidationError, str_field, list_field, bool_field, datetime_field,
}

second : List String → String
second (a ∷ b ∷ rest) = b
second _ = ""

unfoldable pub masked_email : String → String
unfolding second
masked_email email = if contains email "@" then concat "***@" (second (split 64 email)) else "***"

-- `s[-4:]`
last_four : String → String
last_four s = drop (len s - 4) s

unfoldable pub masked_phone : String → String
unfolding last_four
masked_phone phone =
    if is_empty phone || phone == "***" then "***" else concat "***" (last_four phone)

iso_value : Option String → Value
iso_value none = null
iso_value (some t) = str t

unfoldable pub create_sanitized_for_transport : Option BlocksContext → Dict Value
unfolding iso_value
create_sanitized_for_transport none = []
create_sanitized_for_transport (some c) =
    ("TenantId", str c.tenant_id)
    ∷ ("Roles", arr (strings c.roles))
    ∷ ("UserId", str c.user_id)
    ∷ ("IsAuthenticated", bool c.is_authenticated)
    ∷ ("RequestUri", str c.request_uri)
    ∷ ("OrganizationId", str c.organization_id)
    ∷ ("ExpireOn", iso_value c.expire_on)
    ∷ ("Email", str (masked_email c.email))
    ∷ ("Permissions", arr (strings c.permissions))
    ∷ ("UserName", str c.user_name)
    ∷ ("PhoneNumber", str (masked_phone c.phone_number))
    ∷ ("DisplayName", str c.display_name)
    ∷ ("OauthToken", str "")
    ∷ ("OriginalTenantId", str (or_text c.original_tenant_id c.tenant_id))
    ∷ ("ApplicationDomain", str c.application_domain)
    ∷ ("Impersonated", bool c.impersonated)
    ∷ ("ClientId", str c.client_id)
    ∷ ("SessionId", str c.session_id)
    ∷ []

-- The value that travels under the wire name, else under the context's own name; a null is dropped.
non_null : Value → Option Value
non_null null = none
non_null v = some v

travelled : Dict Value → String → String → Option Value
unfolding non_null
travelled payload wire_name name = elim (get payload wire_name) [
  | some v ↦ non_null v
  | none ↦ elim (get payload name) [ some v ↦ non_null v | none ↦ none ]
]

module _ (pydantic : Pydantic) where
  rebuild : Dict Value → Result ValidationError BlocksContext
  unfolding travelled
  rebuild p = do
    tenant_id ← str_field (travelled p "TenantId" "tenant_id")
    roles ← list_field (travelled p "Roles" "roles")
    user_id ← str_field (travelled p "UserId" "user_id")
    is_authenticated ← bool_field pydantic (travelled p "IsAuthenticated" "is_authenticated")
    request_uri ← str_field (travelled p "RequestUri" "request_uri")
    organization_id ← str_field (travelled p "OrganizationId" "organization_id")
    expire_on ← datetime_field pydantic (travelled p "ExpireOn" "expire_on")
    email ← str_field (travelled p "Email" "email")
    permissions ← list_field (travelled p "Permissions" "permissions")
    user_name ← str_field (travelled p "UserName" "user_name")
    phone_number ← str_field (travelled p "PhoneNumber" "phone_number")
    display_name ← str_field (travelled p "DisplayName" "display_name")
    oauth_token ← str_field (travelled p "OauthToken" "oauth_token")
    original_tenant_id ← str_field (travelled p "OriginalTenantId" "original_tenant_id")
    application_domain ← str_field (travelled p "ApplicationDomain" "application_domain")
    impersonated ← bool_field pydantic (travelled p "Impersonated" "impersonated")
    client_id ← str_field (travelled p "ClientId" "client_id")
    session_id ← str_field (travelled p "SessionId" "session_id")
    ok (record {
      tenant_id = tenant_id;
      roles = roles;
      user_id = user_id;
      expire_on = expire_on;
      request_uri = request_uri;
      oauth_token = oauth_token;
      organization_id = organization_id;
      is_authenticated = is_authenticated;
      email = email;
      permissions = permissions;
      user_name = user_name;
      phone_number = phone_number;
      display_name = display_name;
      original_tenant_id = original_tenant_id;
      application_domain = application_domain;
      impersonated = impersonated;
      impersonation_session_id = "";
      client_id = client_id;
      session_id = session_id;
    })

  unfoldable pub from_transport :
      Option (Dict Value) → Result ValidationError (Option BlocksContext)
  unfolding rebuild
  from_transport none = ok none
  from_transport (some payload) =
      if is_nil payload then ok none else do c ← rebuild payload; ok (some c)

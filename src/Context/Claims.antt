-- ===== src/Context/Claims.antt =====
-- `strip_reserved_claims`, `create_third_party_context`, `create_from_jwt_claims` and `create` of
-- blocks_genesis/_auth/blocks_context.py.
pub mod Reserved
use blocks_genesis_py.Prelude.{
  String, Bool, true, false, not, List, [], ◌∷◌, Option, none, some, any, ◌==◌, if◌then◌else◌,
}
use blocks_genesis_py.Prelude.Dict.{Dict, get, keep_keys}
use blocks_genesis_py.Prelude.Int.{ℤ}
use blocks_genesis_py.Prelude.Result.{Result, ok, err, ◌>>=◌}
use blocks_genesis_py.Prelude.Text.{is_empty, is_blank, or_text, concat}
use blocks_genesis_py.Json.{
  Value, null, bool, int, float, str, arr, obj, Items, no_items, is_truthy,
}
use blocks_genesis_py.Context.Record.{BlocksContext}
use blocks_genesis_py.Context.Fields.{Pydantic, ValidationError, str_field, list_field, bool_field}

abbrev pub Claims : Type 0
Claims = Dict Value

abbrev pub reserved_claims : List String
reserved_claims =
    "tenant_id" ∷ "original_tenant_id" ∷ "user_id" ∷ "user_name" ∷ "name" ∷ "email" ∷ "permissions"
    ∷ "org_id" ∷ "impersonated" ∷ "impersonation_session_id" ∷ "client_id" ∷ "roles" ∷ []

abbrev pub is_reserved : String → Bool
is_reserved k = any (λ r. r == k) reserved_claims

unfoldable pub strip_reserved_claims : Claims → Claims
strip_reserved_claims claims = keep_keys (λ k. not (is_reserved k)) claims

pub data ValueError : Type 0 where
  no_tenant no_subject : ValueError

-- The keyword arguments of `create_third_party_context` that have a default.
pub record Profile : Type 0 where
  pub roles : List String
  pub email : String
  pub user_name : String
  pub display_name : String
  pub application_domain : String
  pub request_uri : String
  pub expire_on : Option String

unfoldable pub create_third_party_context :
    String → String → String → Profile → Result ValueError BlocksContext
create_third_party_context tenant_id subject organization_id profile =
    if is_blank tenant_id
    then err no_tenant
    else if is_blank subject
    then err no_subject
    else ok (record {
      tenant_id = tenant_id;
      roles = profile.roles;
      user_id = concat subject "_external";
      expire_on = profile.expire_on;
      request_uri = profile.request_uri;
      oauth_token = "";
      organization_id = or_text organization_id "default";
      is_authenticated = true;
      email = profile.email;
      permissions = [];
      user_name = profile.user_name;
      phone_number = "";
      display_name = profile.display_name;
      original_tenant_id = tenant_id;
      application_domain = profile.application_domain;
      impersonated = false;
      impersonation_session_id = "";
      client_id = "";
      session_id = "";
    })

-- `get_claim_list`, with the check that pydantic makes of its items.
claim_list : Option Value → Result ValidationError (List String)
claim_list (some (str s)) = ok (s ∷ [])
claim_list (some (arr vs)) = list_field (some (arr vs))
claim_list _ = ok []

-- What `datetime` makes of the `exp` claim, as `isoformat()` texts: the local time of a timestamp,
-- and the datetime that a text denotes, each `none` where the call raises ValueError or TypeError.
pub record Datetime : Type 0 where
  pub from_timestamp : Value → Option String
  pub from_iso : String → Option String

expire_on_of : Datetime → Option Value → Option String
expire_on_of datetime none = none
expire_on_of datetime (some (bool true)) = datetime.from_timestamp (bool true)
expire_on_of datetime (some (int n)) =
    if is_truthy (int n) then datetime.from_timestamp (int n) else none
expire_on_of datetime (some (float m d)) =
    if is_truthy (float m d) then datetime.from_timestamp (float m d) else none
expire_on_of datetime (some (str s)) = if is_empty s then none else datetime.from_iso s
expire_on_of datetime (some _) = none

claim_or : Option Value → Value → Value
claim_or none v = v
claim_or (some w) v = w

-- The claim that names the original tenant, where the caller names none.
original_tenant : Claims → String → Value
unfolding claim_or
original_tenant claims given =
    let named = claim_or (get claims "original_tenant_id") (str "") in
    let own = claim_or (get claims "tenant_id") (str "") in
    if not (is_empty given) then str given else if is_truthy named then named else own

module _ (pydantic : Pydantic) (datetime : Datetime) where
  unfoldable pub create_from_jwt_claims :
      Claims → String → String → Result ValidationError BlocksContext
  unfolding claim_list expire_on_of original_tenant
  create_from_jwt_claims claims original_tenant_id application_domain = do
    tenant_id ← str_field (get claims "tenant_id")
    roles ← claim_list (get claims "roles")
    user_id ← str_field (get claims "user_id")
    request_uri ← str_field (get claims "request_uri")
    organization_id ← str_field (get claims "org_id")
    email ← str_field (get claims "email")
    permissions ← claim_list (get claims "permissions")
    user_name ← str_field (get claims "user_name")
    phone_number ← str_field (get claims "phone")
    display_name ← str_field (get claims "name")
    oauth_token ← str_field (get claims "oauth")
    original ← str_field (some (original_tenant claims original_tenant_id))
    impersonated ← bool_field pydantic (get claims "impersonated")
    impersonation_session_id ← str_field (get claims "impersonation_session_id")
    client_id ← str_field (get claims "client_id")
    session_id ← str_field (get claims "sid")
    ok (record {
      tenant_id = tenant_id;
      roles = roles;
      user_id = user_id;
      expire_on = expire_on_of datetime (get claims "exp");
      request_uri = request_uri;
      oauth_token = oauth_token;
      organization_id = organization_id;
      is_authenticated = true;
      email = email;
      permissions = permissions;
      user_name = user_name;
      phone_number = phone_number;
      display_name = display_name;
      original_tenant_id = original;
      application_domain = application_domain;
      impersonated = impersonated;
      impersonation_session_id = impersonation_session_id;
      client_id = client_id;
      session_id = session_id;
    })

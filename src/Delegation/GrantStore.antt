-- ===== src/Delegation/GrantStore.antt =====
-- The grants of blocks_genesis/_delegation/grant_store.py, `DelegationGrantStore` over a cache.
pub mod RoundTrip
pub mod Fresh
use blocks_genesis_py.Prelude.{
  ℕ, zero, suc, String, Bool, true, false, not, ◌||◌, ◌&&◌, List, [], ◌∷◌, Option, none, some,
  if◌then◌else◌,
}
use blocks_genesis_py.Prelude.Int.{ℤ, pos, negsuc}
use blocks_genesis_py.Prelude.Dict.{Dict, get, insert, pop}
use blocks_genesis_py.Prelude.Result.{Result, ok, err, ◌>>=◌}
use blocks_genesis_py.Prelude.Text.{is_empty}
use blocks_genesis_py.Json.{Value, null, bool, int, float, str, arr, obj, field, no_fields, fields}
use blocks_genesis_py.Context.Record.{BlocksContext}
use blocks_genesis_py.Context.Fields.{ValidationError, str_field}
use blocks_genesis_py.Delegation.Signature.{
  default_grant_ttl_seconds, grant_key, new_grant_id, is_well_formed,
}
use blocks_genesis_py.Delegation.Flow.{Flow, Env}

pub record DelegationGrantRecord : Type 0 where
  pub tenant_id : String
  pub user_id : String
  pub organization_id : String
  pub token_version : String
  pub security_stamp : String
  pub client_id : String
  pub impersonation_session_id : String
  pub original_tenant_id : String

unfoldable pub is_client_grant : DelegationGrantRecord → Bool
is_client_grant r = is_empty r.user_id && not (is_empty r.client_id)

-- `model_dump(by_alias=True)`
unfoldable pub to_wire : DelegationGrantRecord → Value
to_wire r = obj (
    field "TenantId" (str r.tenant_id) (
      field "UserId" (str r.user_id) (
        field "OrganizationId" (str r.organization_id) (
          field "TokenVersion" (str r.token_version) (
            field "SecurityStamp" (str r.security_stamp) (
              field "ClientId" (str r.client_id) (
                field "ImpersonationSessionId" (str r.impersonation_session_id)
                  (field "OriginalTenantId" (str r.original_tenant_id) no_fields))))))))

-- A field by its alias, and by its name where the alias is missing.
aliased : Dict Value → String → String → Result ValidationError String
aliased d alias name = elim (get d alias) [
  | some v ↦ str_field (some v)
  | none ↦ str_field (get d name)
]

read_fields : Dict Value → Result ValidationError DelegationGrantRecord
unfolding aliased
read_fields d = do
  tenant_id ← aliased d "TenantId" "tenant_id"
  user_id ← aliased d "UserId" "user_id"
  organization_id ← aliased d "OrganizationId" "organization_id"
  token_version ← aliased d "TokenVersion" "token_version"
  security_stamp ← aliased d "SecurityStamp" "security_stamp"
  client_id ← aliased d "ClientId" "client_id"
  session ← aliased d "ImpersonationSessionId" "impersonation_session_id"
  original ← aliased d "OriginalTenantId" "original_tenant_id"
  ok (record {
    tenant_id = tenant_id;
    user_id = user_id;
    organization_id = organization_id;
    token_version = token_version;
    security_stamp = security_stamp;
    client_id = client_id;
    impersonation_session_id = session;
    original_tenant_id = original;
  })

-- `DelegationGrantRecord(**payload)`, where any error gives no record.
read_record : Option Value → Option DelegationGrantRecord
unfolding read_fields
read_record (some (obj fs)) = elim (read_fields (fields fs)) [ ok r ↦ some r | err e ↦ none ]
read_record _ = none

-- The errors that leave the store: a caller's missing subject, and a cache that does not answer.
pub data StoreError : Type 0 where
  value_error cache_error : StoreError

unfoldable pub lifetime_of : Option ℤ → ℕ
lifetime_of none = default_grant_ttl_seconds
lifetime_of (some (negsuc n)) = default_grant_ttl_seconds
lifetime_of (some (pos zero)) = default_grant_ttl_seconds
lifetime_of (some (pos (suc n))) = suc n

only_if : Bool → String → String
only_if true s = s
only_if false s = ""

pub user_record : BlocksContext → String → String → DelegationGrantRecord
unfolding only_if
user_record context token_version security_stamp = record {
  tenant_id = context.tenant_id;
  user_id = context.user_id;
  organization_id = context.organization_id;
  token_version = token_version;
  security_stamp = security_stamp;
  client_id = "";
  impersonation_session_id = only_if context.impersonated context.impersonation_session_id;
  original_tenant_id = only_if context.impersonated context.original_tenant_id;
}

pub client_record : String → String → String → DelegationGrantRecord
client_record tenant_id client_id organization_id = record {
  tenant_id = tenant_id;
  user_id = "";
  organization_id = organization_id;
  token_version = "";
  security_stamp = "";
  client_id = client_id;
  impersonation_session_id = "";
  original_tenant_id = "";
}

-- A refusal of a missing subject, before anything is written.
required : Bool → Result StoreError String × Flow → Flow → Result StoreError String × Flow
required true rest flow = (err value_error, flow)
required false rest flow = rest

module _ (env : Env) where
  stored_under : Bool → String → String × ℕ → Flow → Result StoreError String × Flow
  stored_under false id entry flow = (err cache_error, flow)
  stored_under true id entry flow =
      (ok id, record flow { cache = insert flow.cache (grant_key id) entry })

  -- `_write_async`, given the random digits of the new id.
  unfoldable pub write :
      DelegationGrantRecord → Option ℤ → String → Flow → Result StoreError String × Flow
  unfolding stored_under
  write r ttl random flow =
      stored_under env.cache_up (new_grant_id random) (env.json_dumps (to_wire r), lifetime_of ttl)
        flow

  unfoldable pub create :
      BlocksContext → String → String → Option ℤ → String → Flow → Result StoreError String × Flow
  unfolding required user_record
  create context token_version security_stamp ttl random flow =
      required (is_empty context.tenant_id || is_empty context.user_id)
        (write (user_record context token_version security_stamp) ttl random flow) flow

  unfoldable pub create_for_client :
      String → String → String → Option ℤ → String → Flow → Result StoreError String × Flow
  unfolding required client_record
  create_for_client tenant_id client_id organization_id ttl random flow =
      required (is_empty tenant_id || is_empty client_id)
        (write (client_record tenant_id client_id organization_id) ttl random flow) flow

  removed : Bool → Bool → String → Flow → Flow
  removed false up id flow = flow
  removed true false id flow = flow
  removed true true id flow = record flow { cache = pop flow.cache (grant_key id) }

  -- An error of the cache is logged, and the lifetime still bounds the grant.
  unfoldable pub delete : String → Flow → Flow
  unfolding removed
  delete id flow = removed (is_well_formed id) env.cache_up id flow

  of_raw : Option (String × ℕ) → Option DelegationGrantRecord
  unfolding read_record
  of_raw none = none
  of_raw (some (raw, lifetime)) = if is_empty raw then none else read_record (env.json_loads raw)

  unfoldable pub looked_up :
      Bool → Bool → Option DelegationGrantRecord → Result StoreError (Option DelegationGrantRecord)
  looked_up false up found = ok none
  looked_up true false found = err cache_error
  looked_up true true found = ok found

  -- `get_async`: the read itself is not guarded.
  unfoldable pub get_grant : String → Flow → Result StoreError (Option DelegationGrantRecord)
  unfolding looked_up of_raw
  get_grant id flow =
      looked_up (is_well_formed id) env.cache_up (of_raw (get flow.cache (grant_key id)))

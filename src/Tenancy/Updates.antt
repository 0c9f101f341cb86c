-- ===== src/Tenancy/Updates.antt =====
-- The messages that keep the tenant cache up to date: `TenantCacheUpdateMessage` and its handlers in
-- blocks_genesis/_tenant/tenant_service.py.
pub mod Keyed
pub mod Refinement
pub mod Published
use blocks_genesis_py.Prelude.{
  String, Bool, true, false, ◌||◌, not, List, [], ◌∷◌, Option, none, some, ◌==◌, if◌then◌else◌,
}
use blocks_genesis_py.Prelude.Dict.{Dict, insert, pop}
use blocks_genesis_py.Prelude.Text.{is_empty, is_blank, strip, lower}
use blocks_genesis_py.Tenancy.Tenant.{Tenant}

pub record TenantCacheUpdateMessage : Type 0 where
  pub tenant : Option Tenant
  pub tenant_id : Option String
  pub action : String

-- `id if id and id.strip()`
unfoldable pub filled : Option String → Option String
filled none = none
filled (some id) = if is_blank id then none else some id

tenant_id_of : Option Tenant → Option String
unfolding filled
tenant_id_of none = none
tenant_id_of (some t) = filled (some t.tenant_id)

unfoldable pub resolve_tenant_id : TenantCacheUpdateMessage → Option String
unfolding filled tenant_id_of
resolve_tenant_id update = elim (filled update.tenant_id) [
  | some id ↦ some id
  | none ↦ tenant_id_of update.tenant
]

unfoldable pub action_of : TenantCacheUpdateMessage → String
action_of update = lower (strip update.action)

normalize_remove : TenantCacheUpdateMessage → Option String → Option TenantCacheUpdateMessage
normalize_remove update none = none
normalize_remove update (some id) = some (record update { action = "remove"; tenant_id = some id })

normalize_upsert : TenantCacheUpdateMessage → Option Tenant → Option TenantCacheUpdateMessage
normalize_upsert update none = none
normalize_upsert update (some t) =
    if is_empty t.tenant_id
    then none
    else some (record update { action = "upsert"; tenant_id = some t.tenant_id })

unfoldable pub normalize_cache_update : TenantCacheUpdateMessage → Option TenantCacheUpdateMessage
unfolding action_of resolve_tenant_id normalize_remove normalize_upsert
normalize_cache_update update =
    if action_of update == "remove"
    then normalize_remove update (resolve_tenant_id update)
    else if action_of update == "upsert"
    then normalize_upsert update update.tenant
    else none

-- The id is not empty.
removed : Option String → Dict Tenant → Dict Tenant
removed none cache = cache
removed (some id) cache = if is_empty id then cache else pop cache id

upserted : Option Tenant → Dict Tenant → Dict Tenant
upserted none cache = cache
upserted (some t) cache =
    if is_empty t.tenant_id
    then cache
    else if t.is_disabled
    then pop cache t.tenant_id
    else insert cache t.tenant_id t

unfoldable pub apply_update_message : TenantCacheUpdateMessage → Dict Tenant → Dict Tenant
unfolding action_of removed upserted
apply_update_message update cache =
    if action_of update == "remove"
    then removed update.tenant_id cache
    else upserted update.tenant cache

apply_normalized : Option TenantCacheUpdateMessage → Dict Tenant → Dict Tenant
unfolding apply_update_message
apply_normalized none cache = cache
apply_normalized (some update) cache = apply_update_message update cache

-- `_handle_update`, from the message as it is read: `none` where it cannot be parsed.
unfoldable pub handle_update : Option TenantCacheUpdateMessage → Dict Tenant → Dict Tenant
unfolding apply_normalized normalize_cache_update
handle_update none cache = cache
handle_update (some update) cache = apply_normalized (normalize_cache_update update) cache

unfoldable pub handle_updates : List (Option TenantCacheUpdateMessage) → Dict Tenant → Dict Tenant
unfolding handle_update
handle_updates [] cache = cache
handle_updates (m ∷ ms) cache = handle_updates ms (handle_update m cache)

written : (TenantCacheUpdateMessage → String) → Option TenantCacheUpdateMessage → Option String
written model_dump_json none = none
written model_dump_json (some update) = some (model_dump_json update)

-- `update_tenant_version_async`: what it publishes, if anything, with the JSON writer of the model.
unfoldable pub published :
    (TenantCacheUpdateMessage → String) → TenantCacheUpdateMessage → Option String
unfolding normalize_cache_update written
published model_dump_json update = written model_dump_json (normalize_cache_update update)

-- `_handle_update` of what is received on the channel, if anything, with the JSON reader of the model.
unfoldable pub received :
    (String → Option TenantCacheUpdateMessage) → Option String → Dict Tenant → Dict Tenant
unfolding handle_update
received model_validate_json none cache = cache
received model_validate_json (some message) cache =
    handle_update (model_validate_json message) cache

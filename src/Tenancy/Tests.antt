-- ===== src/Tenancy/Tests.antt =====
-- Examples of a tenant cache and of its messages.
use blocks_genesis_py.Prelude.{String, true, false, List, [], ◌∷◌, Option, none, some, map, ◌≡◌}
use blocks_genesis_py.Prelude.Dict.{get, EveryEntry}
use blocks_genesis_py.Prelude.Text.{strip, lower}
use blocks_genesis_py.Tenancy.Tenant.{Tenant}
use blocks_genesis_py.Tenancy.Service.{Database}
use blocks_genesis_py.Tenancy.Updates.{
  TenantCacheUpdateMessage, action_of, normalize_cache_update, handle_update, handle_updates,
  published, received,
}
use blocks_genesis_py.Tenancy.Updates.Keyed.{Keyed}
use blocks_genesis_py.Tenancy.Updates.Refinement.{
  request_of, updated_all, handle_updates-updated_all,
}
use blocks_genesis_py.Tenancy.Updates.Published.{received-published}

abbrev tenant : Tenant
tenant = record {
  tenant_id = "T";
  is_accept_blocks_terms = true;
  is_use_blocks_exclusively = false;
  name = none;
  db_name = "db";
  applications = [];
  is_disabled = false;
  db_connection_string = "";
  tenant_salt = "salt";
  jwt_token_parameters = none;
  third_party_jwt_token_parameters = none;
  is_third_party_jwt_enabled = false;
  is_root_tenant = false;
  environment = "";
  tenant_group_id = "";
}

abbrev upsert : TenantCacheUpdateMessage
upsert = record { tenant = some tenant; tenant_id = none; action = " Upsert " }

abbrev remove : TenantCacheUpdateMessage
remove = record { tenant = none; tenant_id = some "T"; action = "remove" }

abbrev database : Database
database = record {
  find_by_id = λ id. some (record tenant { tenant_id = id });
  find_by_domains = λ a b. some tenant;
}

abbrev empty_database : Database
empty_database = record { find_by_id = λ id. none; find_by_domains = λ a b. none }

abbrev messages : List (Option TenantCacheUpdateMessage)
messages = some upsert ∷ none ∷ some remove ∷ some upsert ∷ []

handle_updates-updated_all_example :
    get (handle_updates messages []) "T" ≡ updated_all (map request_of messages) (get []) "T"
handle_updates-updated_all_example = handle_updates-updated_all messages [] "T"

-- What the update is normalized to.
abbrev normal : TenantCacheUpdateMessage
normal = record { tenant = some tenant; tenant_id = some "T"; action = "upsert" }

toy_dump : TenantCacheUpdateMessage → String
toy_dump m = "message"

toy_load : String → Option TenantCacheUpdateMessage
toy_load s = some normal

toy_read :
    (n : TenantCacheUpdateMessage)
    → normalize_cache_update upsert ≡ some n
    → toy_load (toy_dump n) ≡ some n
unfolding toy_load normalize_cache_update action_of strip lower
toy_read n e = e

received-published_example :
    received toy_load (published toy_dump upsert) [] ≡ handle_update (some upsert) []
received-published_example = received-published toy_dump toy_load [] upsert toy_read

no_tenants : Keyed []
unfolding EveryEntry
no_tenants = tt

-- ===== src/Databases/Tests.antt =====
-- Two tenants with databases of one name on two clusters.
use blocks_genesis_py.Prelude.{
  String, List, [], ◌∷◌, none, some, ◌==◌, if◌then◌else◌, false, true, ◌≡◌, refl,
}
use blocks_genesis_py.Prelude.Dict.{get, insert}
use blocks_genesis_py.Prelude.Text.{or_text}
use blocks_genesis_py.Tenancy.Tenant.{Tenant}
use blocks_genesis_py.Tenancy.Service.{Database, get_tenant, get_db_connection}
use blocks_genesis_py.Databases.{
  Handle, found, raised, runtime_error, tenant_of, get_database_by_connection, get_database,
  get_collection, Event, asks, run, new_state,
}
use blocks_genesis_py.Databases.Handles.{Opens, get_database-Opens}

abbrev placed_at : String → String → Tenant
placed_at id connection = record {
  tenant_id = id;
  is_accept_blocks_terms = true;
  is_use_blocks_exclusively = false;
  name = none;
  db_name = "app";
  applications = [];
  is_disabled = false;
  db_connection_string = connection;
  tenant_salt = "salt";
  jwt_token_parameters = none;
  third_party_jwt_token_parameters = none;
  is_third_party_jwt_enabled = false;
  is_root_tenant = false;
  environment = "";
  tenant_group_id = "";
}

abbrev two_clusters : Database
two_clusters = record {
  find_by_id = λ id. some (placed_at id (if id == "A" then "mongodb://a" else "mongodb://b"));
  find_by_domains = λ a b. none;
}

abbrev handle : Handle
handle = record { client = 1; database_name = "app" }

abbrev asked_before : List Event
asked_before = asks "A" none ∷ []

second_cluster :
    (get_database two_clusters "B" none (run two_clusters asked_before new_state)).0
    ≡ found (some handle)
unfolding run get_database get_database_by_connection get_db_connection get_tenant get insert
second_cluster = refl

get_database-Opens_example :
    let s = run two_clusters asked_before new_state in
    let r = get_database two_clusters "B" none s in
    (place : String × String) × ((get_db_connection two_clusters
        (or_text "B" (tenant_of none))
        s.tenants).0
      ≡ some place)
    × Opens r.1.pool place.1 place.0 handle
get_database-Opens_example =
    get_database-Opens two_clusters asked_before "B" none handle second_cluster

no_tenant : (get_collection two_clusters "Users" "" none new_state).0 ≡ raised runtime_error
unfolding get_collection
no_tenant = refl

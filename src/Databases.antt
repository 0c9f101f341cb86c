-- ===== src/Databases.antt =====
-- The databases of the tenants: `MongoDbContextProvider` of blocks_genesis/_database/mongo_context.py and
-- `DbContext` of db_context.py. A handle is a client, by its number, and the name of a database; what is
-- done under the lock is one step.
pub mod Handles
mod Tests
use blocks_genesis_py.Prelude.{
  ℕ, ◌+◌, String, Bool, true, false, ◌&&◌, List, [], ◌∷◌, Option, none, some, nat_eq, ◌==◌,
  if◌then◌else◌,
}
use blocks_genesis_py.Prelude.Dict.{Dict, get, insert}
use blocks_genesis_py.Prelude.Text.{is_empty, or_text}
use blocks_genesis_py.Context.Record.{BlocksContext}
use blocks_genesis_py.Tenancy.Tenant.{Tenant}
use blocks_genesis_py.Tenancy.Service.{Database, get_db_connection}

pub record Handle : Type 0 where
  pub client : ℕ
  pub database_name : String

-- The module's two dictionaries: of databases by connection and name together, of clients by connection;
-- and for each client that was made its connection.
pub record Pool : Type 0 where
  pub databases : List ((String × String) × Handle)
  pub clients : Dict ℕ
  pub made : ℕ
  pub connected : ℕ → Option String

-- The errors of `get_database` and `get_collection`.
pub data DbError : Type 0 where
  value_error : DbError
  runtime_error : DbError

pub data Found (A : Type 0) : Type 0 where
  found : A → Found A
  raised : DbError → Found A

unfoldable pub lookup : List ((String × String) × Handle) → String → String → Option Handle
lookup [] c n = none
lookup (((d, m), h) ∷ rest) c n = if d == c && m == n then some h else lookup rest c n

client_or_new : String → Option ℕ → Pool → ℕ × Pool
client_or_new connection (some client) p = (client, p)
client_or_new connection none p = (
  p.made,
  record p {
    clients = insert p.clients connection p.made;
    made = p.made + 1;
    connected = λ k. if nat_eq p.made k then some connection else p.connected k;
  },
)

-- `_get_client`
unfoldable pub get_client : String → Pool → ℕ × Pool
unfolding client_or_new
get_client connection p = client_or_new connection (get p.clients connection) p

opened : String → String → ℕ × Pool → Handle × Pool
opened connection name (client, p) =
    let handle : Handle = record { client = client; database_name = name } in
    (handle, record p { databases = ((connection, name), handle) ∷ p.databases })

handle_or_new : String → String → Option Handle → Pool → Handle × Pool
unfolding opened get_client
handle_or_new connection name (some handle) p = (handle, p)
handle_or_new connection name none p = opened connection name (get_client connection p)

returned : Handle × Pool → Found Handle × Pool
returned (handle, p) = (found handle, p)

unfoldable pub get_database_by_connection : String → String → Pool → Found Handle × Pool
unfolding returned handle_or_new lookup
get_database_by_connection connection name p =
    if is_empty connection
    then (raised value_error, p)
    else if is_empty name
    then (raised value_error, p)
    else returned (handle_or_new connection name (lookup p.databases connection name) p)

pub tenant_of : Option BlocksContext → String
tenant_of none = ""
tenant_of (some c) = c.tenant_id

some_handle : Found Handle × Pool → Found (Option Handle) × Pool
some_handle (found handle, p) = (found (some handle), p)
some_handle (raised e, p) = (raised e, p)

-- With what `TenantService.get_db_connection` gives: a database name and a connection string, or nothing.
connected_to : Option (String × String) → Pool → Found (Option Handle) × Pool
unfolding some_handle
connected_to none p = (raised value_error, p)
connected_to (some (name, connection)) p =
    some_handle (get_database_by_connection connection name p)

-- The cached tenants, and the handles.
pub record State : Type 0 where
  pub tenants : Dict Tenant
  pub pool : Pool

placed : Option (String × String) × Dict Tenant → Pool → Found (Option Handle) × State
placed (place, tenants) p =
    let r = connected_to place p in (r.0, record { tenants = tenants; pool = r.1 })

-- `get_database`, where no tenant gives no database.
unfoldable pub get_database :
    Database → String → Option BlocksContext → State → Found (Option Handle) × State
unfolding connected_to placed tenant_of
get_database database tenant_id context s =
    let tenant = or_text tenant_id (tenant_of context) in
    if is_empty tenant
    then (found none, s)
    else placed (get_db_connection database tenant s.tenants) s.pool

in_collection : String → Found (Option Handle) × State → Found (Handle × String) × State
in_collection name (found (some handle), s) = (found (handle, name), s)
in_collection name (found none, s) = (raised runtime_error, s)
in_collection name (raised e, s) = (raised e, s)

-- `get_collection`
unfoldable pub get_collection :
    Database → String → String → Option BlocksContext → State → Found (Handle × String) × State
unfolding in_collection get_database
get_collection database name tenant_id context s =
    in_collection name (get_database database tenant_id context s)

-- Between two calls the cached tenants may change, as by an update message.
pub data Event : Type 0 where
  asks : (tenant_id : String) (context : Option BlocksContext) → Event
  recaches : Dict Tenant → Event

unfoldable pub run : Database → List Event → State → State
unfolding get_database
run database [] s = s
run database (asks tenant_id context ∷ es) s =
    run database es (get_database database tenant_id context s).1
run database (recaches tenants ∷ es) s = run database es (record s { tenants = tenants })

abbrev pub new_pool : Pool
new_pool = record { databases = []; clients = []; made = 0; connected = λ k. none }

abbrev pub new_state : State
new_state = record { tenants = []; pool = new_pool }

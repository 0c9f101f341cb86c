-- ===== src/Tenancy/Loading.antt =====
-- `TenantService.get_tenant` of blocks_genesis/_tenant/tenant_service.py, as its callers interleave.
-- A caller runs from one `await` to the next; the locks only guard steps without an `await`, so what
-- is done under one is part of a step. Loads are numbered as they are started.
pub mod Shared
mod Tests
use blocks_genesis_py.Prelude.{
  ℕ, ◌+◌, String, Bool, true, false, List, [], ◌∷◌, Option, none, some, nat_eq, if◌then◌else◌,
}
use blocks_genesis_py.Prelude.Dict.{Dict, get, insert, pop}
use blocks_genesis_py.Prelude.Text.{is_empty}
use blocks_genesis_py.Tenancy.Tenant.{Tenant}
use blocks_genesis_py.Tenancy.Updates.{TenantCacheUpdateMessage, handle_update}

-- Where a caller stands: before its call, waiting for a load, or back with a tenant or none.
pub data Caller : Type 0 where
  idle : Caller
  awaiting : (tenant_id : String) (load : ℕ) → Caller
  returned : Option Tenant → Caller

pub record Loading : Type 0 where
  pub tenant_cache : Dict Tenant
  pub load_in_progress : Dict ℕ
  -- how many loads were started, and what each has given so far
  pub started : ℕ
  pub loaded : ℕ → Option (Option Tenant)
  pub callers : ℕ → Caller

abbrev pub put_caller : ℕ → Caller → Loading → Loading
put_caller i c s = record s { callers = λ j. if nat_eq i j then c else s.callers j }

-- A load in progress is shared, else one is started.
joined : ℕ → String → Option ℕ → Loading → Loading
joined i tenant_id (some load) s = put_caller i (awaiting tenant_id load) s
joined i tenant_id none s = put_caller i (awaiting tenant_id s.started) (record s {
  load_in_progress = insert s.load_in_progress tenant_id s.started;
  started = s.started + 1;
})

looked_up : ℕ → String → Option Tenant → Loading → Loading
unfolding joined
looked_up i tenant_id (some tenant) s = put_caller i (returned (some tenant)) s
looked_up i tenant_id none s = joined i tenant_id (get s.load_in_progress tenant_id) s

-- Up to the wait for the load.
asked : ℕ → String → Loading → Loading
unfolding looked_up
asked i tenant_id s =
    if is_empty tenant_id
    then put_caller i (returned none) s
    else looked_up i tenant_id (get s.tenant_cache tenant_id) s

-- Only its own load is taken out of those in progress.
ended : String → ℕ → Option ℕ → Dict ℕ → Dict ℕ
ended tenant_id load none progress = progress
ended tenant_id load (some l) progress = if nat_eq l load then pop progress tenant_id else progress

cached : Option Tenant → Dict Tenant → Dict Tenant
cached none cache = cache
cached (some tenant) cache = insert cache tenant.tenant_id tenant

-- From the load's end on, if it has ended.
finished : ℕ → String → ℕ → Option (Option Tenant) → Loading → Loading
unfolding ended cached
finished i tenant_id load none s = s
finished i tenant_id load (some found) s = put_caller i (returned found) (record s {
  load_in_progress = ended tenant_id load (get s.load_in_progress tenant_id) s.load_in_progress;
  tenant_cache = cached found s.tenant_cache;
})

resumed : ℕ → Caller → Loading → Loading
unfolding finished
resumed i (awaiting tenant_id load) s = finished i tenant_id load (s.loaded load) s
resumed i idle s = s
resumed i (returned r) s = s

is_free : Caller → Bool
is_free idle = true
is_free (awaiting tenant_id load) = false
is_free (returned r) = true

-- What may happen next: a caller asks, the database answers a load, a caller resumes, an update
-- message is handled.
pub data Event : Type 0 where
  asks : (caller : ℕ) (tenant_id : String) → Event
  answers : (load : ℕ) (found : Option Tenant) → Event
  resumes : (caller : ℕ) → Event
  updates : Option TenantCacheUpdateMessage → Event

unfoldable pub step : Event → Loading → Loading
unfolding asked resumed is_free
step (asks i tenant_id) s = if is_free (s.callers i) then asked i tenant_id s else s
step (answers load found) s = record s {
  loaded = λ l. if nat_eq load l then some found else s.loaded l;
}
step (resumes i) s = resumed i (s.callers i) s
step (updates m) s = record s { tenant_cache = handle_update m s.tenant_cache }

unfoldable pub run : List Event → Loading → Loading
unfolding step
run [] s = s
run (e ∷ es) s = run es (step e s)

abbrev pub new_loading : Loading
new_loading = record {
  tenant_cache = [];
  load_in_progress = [];
  started = 0;
  loaded = λ l. none;
  callers = λ i. idle;
}

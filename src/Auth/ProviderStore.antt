-- ===== src/Auth/ProviderStore.antt =====
-- The active providers of a tenant, cached for a minute:
-- blocks_genesis/_auth/third_party_provider_store.py. A read is one step: callers that share one load
-- are not told apart.
pub mod Stale
mod Tests
use blocks_genesis_py.Prelude.{
  ℕ, ◌-◌, String, Bool, true, false, List, [], ◌∷◌, Option, none, some, leb, if◌then◌else◌,
}
use blocks_genesis_py.Prelude.Dict.{Dict, get, insert, pop}
use blocks_genesis_py.Prelude.Text.{is_blank}
use blocks_genesis_py.Auth.Provider.{ThirdPartyJwtProvider}

abbrev pub cache_lifetime_seconds : ℕ
cache_lifetime_seconds = 60

-- A tenant's providers and the time at which they were stored.
abbrev pub Store : Type 0
Store = Dict (List ThirdPartyJwtProvider × ℕ)

fresh : Option (List ThirdPartyJwtProvider × ℕ) → ℕ → Option (List ThirdPartyJwtProvider)
fresh none now = none
fresh (some (providers, at)) now =
    if leb (now - at) cache_lifetime_seconds then some providers else none

served :
    Option (List ThirdPartyJwtProvider)
    → ℕ
    → List ThirdPartyJwtProvider
    → String
    → Store
    → List ThirdPartyJwtProvider × Store
served (some providers) later loaded tenant_id store = (providers, store)
served none later loaded tenant_id store = (loaded, insert store tenant_id (loaded, later))

-- `get_active`, with the clock before and after a load and what the load gives: the rows, or none where
-- it fails.
unfoldable pub get_active :
    String → ℕ → ℕ → List ThirdPartyJwtProvider → Store → List ThirdPartyJwtProvider × Store
unfolding served fresh
get_active tenant_id now later loaded store =
    if is_blank tenant_id
    then ([], store)
    else served (fresh (get store tenant_id) now) later loaded tenant_id store

unfoldable pub invalidate : String → Store → Store
invalidate tenant_id store = if is_blank tenant_id then store else pop store tenant_id

pub data Event : Type 0 where
  reads : (tenant_id : String) (now later : ℕ) (loaded : List ThirdPartyJwtProvider) → Event
  drops : (tenant_id : String) → Event

-- The store after the events, the latest first.
unfoldable pub after : List Event → Store
unfolding get_active invalidate
after [] = []
after (reads tenant_id now later loaded ∷ past) =
    (get_active tenant_id now later loaded (after past)).1
after (drops tenant_id ∷ past) = invalidate tenant_id (after past)

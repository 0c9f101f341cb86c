-- ===== src/Tenancy/Loading/Tests.antt =====
-- Two callers that ask for one tenant.
use blocks_genesis_py.Prelude.{ℕ, List, [], ◌∷◌, ◌≡◌, refl}
use blocks_genesis_py.Prelude.Dict.{get, insert}
use blocks_genesis_py.Tenancy.Loading.{Event, asks, step, run}
use blocks_genesis_py.Tenancy.Loading.Shared.{load_shared}

abbrev both_ask : List Event
both_ask = asks 3 "T" ∷ asks 5 "T" ∷ []

load_shared_example : ◌≡◌ {A = ℕ} 0 0
unfolding run step get insert
load_shared_example = load_shared both_ask 3 5 "T" 0 0 refl refl refl refl

-- ===== src/Auth/ProviderStore/Tests.antt =====
-- Two reads of a tenant's providers within a minute, and one between.
use blocks_genesis_py.Prelude.{List, [], ◌∷◌, ◌≡◌, refl}
use blocks_genesis_py.Prelude.Dict.{get, insert, pop}
use blocks_genesis_py.Prelude.Text.{is_blank}
use blocks_genesis_py.Auth.Tests.{provider}
use blocks_genesis_py.Auth.ProviderStore.{Event, reads, drops, invalidate, get_active, after}
use blocks_genesis_py.Auth.ProviderStore.Stale.{Recent, get_active-Recent}

abbrev past : List Event
past = drops "U" ∷ reads "T" 100 101 (provider ∷ []) ∷ reads "U" 90 91 [] ∷ []

get_active-Recent_example : Recent past "T" 150 [] (get_active "T" 150 151 [] (after past)).0
get_active-Recent_example = get_active-Recent past "T" 150 151 []

-- Within the minute the providers of the first read are served, after it those of the second.
remembered_then_loaded :
    ((get_active "T" 150 151 [] (after past)).0 ≡ provider ∷ [])
    × ((get_active "T" 162 163 [] (after past)).0 ≡ [])
unfolding get_active after invalidate is_blank get insert pop
remembered_then_loaded = (refl, refl)

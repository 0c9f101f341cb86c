-- ===== src/Auth/Algorithm.antt =====
-- blocks_genesis/_auth/jwt_signing_algorithm.py: the algorithms as configured, and the two tests by
-- which a provider's key source is chosen.
pub mod Family
use blocks_genesis_py.Prelude.{
  ℕ, zero, suc, String, Bool, true, false, not, ◌&&◌, ◌||◌, List, [], ◌∷◌, ◌++◌, Option, none, some,
  any, all, is_nil, ◌==◌, if◌then◌else◌,
}
use blocks_genesis_py.Prelude.Int.{ℤ, pos, negsuc}
use blocks_genesis_py.Prelude.Text.{is_empty}

pub data JwtSigningAlgorithm : Type 0 where
  unspecified rs256 rs384 rs512 es256 es384 es512 ps256 ps384 ps512 hs256 hs384 hs512 :
      JwtSigningAlgorithm

-- The members by their stored numbers.
members : List JwtSigningAlgorithm
members =
    unspecified ∷ rs256 ∷ rs384 ∷ rs512 ∷ es256 ∷ es384 ∷ es512 ∷ ps256 ∷ ps384 ∷ ps512 ∷ hs256
    ∷ hs384 ∷ hs512 ∷ []

member_at : List JwtSigningAlgorithm → ℕ → Option JwtSigningAlgorithm
member_at [] n = none
member_at (a ∷ rest) zero = some a
member_at (a ∷ rest) (suc n) = member_at rest n

-- `JwtSigningAlgorithm(n)`: `none` is the ValueError.
unfoldable pub of_int : ℤ → Option JwtSigningAlgorithm
unfolding members member_at
of_int (pos n) = member_at members n
of_int (negsuc n) = none

-- `int(a)`
unfoldable pub to_int : JwtSigningAlgorithm → ℕ
to_int unspecified = 0
to_int rs256 = 1
to_int rs384 = 2
to_int rs512 = 3
to_int es256 = 4
to_int es384 = 5
to_int es512 = 6
to_int ps256 = 7
to_int ps384 = 8
to_int ps512 = 9
to_int hs256 = 10
to_int hs384 = 11
to_int hs512 = 12

abbrev pub is_unspecified : JwtSigningAlgorithm → Bool
is_unspecified unspecified = true
is_unspecified _ = false

unfoldable pub is_symmetric : JwtSigningAlgorithm → Bool
is_symmetric hs256 = true
is_symmetric hs384 = true
is_symmetric hs512 = true
is_symmetric _ = false

unfoldable pub to_wire_name : JwtSigningAlgorithm → String
to_wire_name unspecified = ""
to_wire_name rs256 = "RS256"
to_wire_name rs384 = "RS384"
to_wire_name rs512 = "RS512"
to_wire_name es256 = "ES256"
to_wire_name es384 = "ES384"
to_wire_name es512 = "ES512"
to_wire_name ps256 = "PS256"
to_wire_name ps384 = "PS384"
to_wire_name ps512 = "PS512"
to_wire_name hs256 = "HS256"
to_wire_name hs384 = "HS384"
to_wire_name hs512 = "HS512"

-- One round of the loop of `to_wire_names`, on the names found so far.
add_name : List String → String → List String
add_name names name =
    if not (is_empty name) && not (any (λ n. n == name) names) then names ++ name ∷ [] else names

wire_names_from : List String → List JwtSigningAlgorithm → List String
wire_names_from names [] = names
wire_names_from names (a ∷ rest) = wire_names_from (add_name names (to_wire_name a)) rest

unfoldable pub to_wire_names : Option (List JwtSigningAlgorithm) → List String
unfolding wire_names_from add_name to_wire_name
to_wire_names none = []
to_wire_names (some algorithms) = wire_names_from [] algorithms

unfoldable pub is_single_key_source : Option (List JwtSigningAlgorithm) → Bool
unfolding is_symmetric
is_single_key_source none = false
is_single_key_source (some algorithms) =
    if is_nil algorithms
    then false
    else if any is_unspecified algorithms
    then false
    else all is_symmetric algorithms || not (any is_symmetric algorithms)

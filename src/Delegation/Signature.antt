-- ===== src/Delegation/Signature.antt =====
-- The grant ids of blocks_genesis/_delegation/signature.py and the names of constants.py. Random hex
-- digits are an argument.
use Prim.Native.String.append
use blocks_genesis_py.Prelude.{ℕ, ◌*◌, String, Bool, true, ◌&&◌, ◌||◌, ◌≡◌, leb, nat_eq}
use blocks_genesis_py.Prelude.Text.{starts_with, drop, len, all_chars, concat}

abbrev pub grant_key_prefix : String
grant_key_prefix = "delegation:"

abbrev pub grant_id_prefix : String
grant_id_prefix = "dg_"

abbrev pub grant_id_random_bytes : ℕ
grant_id_random_bytes = 32

abbrev pub default_grant_ttl_seconds : ℕ
default_grant_ttl_seconds = 2 * 24 * 60 * 60

unfoldable pub grant_key : String → String
grant_key delegation_id = concat grant_key_prefix delegation_id

-- "0123456789abcdef"
unfoldable pub is_lower_hex : ℕ → Bool
is_lower_hex c = (leb 48 c && leb c 57) || (leb 97 c && leb c 102)

-- `random` is `secrets.token_hex(32)`.
unfoldable pub new_grant_id : String → String
new_grant_id random = concat grant_id_prefix random

unfoldable pub is_well_formed : String → Bool
unfolding is_lower_hex
is_well_formed delegation_id =
    starts_with delegation_id grant_id_prefix
    && nat_eq (len (drop 3 delegation_id)) (grant_id_random_bytes * 2)
    && all_chars is_lower_hex (drop 3 delegation_id)

-- What `secrets.token_hex(32)` gives: 64 lower-case hex digits.
pub record IsTokenHex (random : String) : Type 0 where
  pub digits : len random ≡ 64
  pub lower_hex : all_chars is_lower_hex random ≡ true

-- The native `++` computes at literals alone.
new_grant_id-cons :
    (random : String)
    → new_grant_id random ≡ String.◌∷◌ "d" (String.◌∷◌ "g" (String.◌∷◌ "_" random))
unfolding new_grant_id
new_grant_id-cons random = simp (
  append.cons "d" "g_" random,
  append.cons "g" "_" random,
  append.cons "_" "" random,
  append.nil random,
)

new_grant_id-prefix : (random : String) → starts_with (new_grant_id random) grant_id_prefix ≡ true
unfolding starts_with
new_grant_id-prefix random = rw (new_grant_id-cons random)

new_grant_id-body : (random : String) → drop 3 (new_grant_id random) ≡ random
unfolding drop
new_grant_id-body random = rw (new_grant_id-cons random)

-- A fresh grant id is well-formed.
pub new_grant_id-well_formed :
    (random : String) → IsTokenHex random → is_well_formed (new_grant_id random) ≡ true
unfolding is_well_formed
new_grant_id-well_formed random h =
    simp (new_grant_id-prefix random, new_grant_id-body random, h.digits, h.lower_hex)

-- ===== src/Delegation/Flow.antt =====
-- What a unit of work holds: the ambient context, claims and grant, and the cache that the grants are
-- written to. blocks_genesis/_delegation/context.py.
use blocks_genesis_py.Prelude.{
  ℕ, String, Bool, true, [], ◌∷◌, Option, none, some, ◌≡◌, if◌then◌else◌, arith,
}
use blocks_genesis_py.Prelude.Dict.{Dict, get}
use blocks_genesis_py.Json.{Value, null}
use blocks_genesis_py.Context.Record.{BlocksContext}
use blocks_genesis_py.Context.Claims.{Claims}
use blocks_genesis_py.Delegation.Signature.{is_well_formed}

-- The cache maps a key to its text and the seconds that it is kept for.
pub record Flow : Type 0 where
  pub context : Option BlocksContext
  pub auth_claims : Option Claims
  pub grant : Option String
  pub cache : Dict (String × ℕ)

-- Python's `json` and `str`, and whether the cache answers.
pub record Env : Type 0 where
  pub text_of : Value → String
  pub json_dumps : Value → String
  pub json_loads : String → Option Value
  pub cache_up : Bool

well_formed_grant : Option String → Option String
well_formed_grant none = none
well_formed_grant (some g) = if is_well_formed g then some g else none

-- `DelegatedTokenContext.set` and `clear`
unfoldable pub set_grant : Option String → Flow → Flow
unfolding well_formed_grant
set_grant g flow = record flow { grant = well_formed_grant g }

unfoldable pub clear_grant : Flow → Flow
clear_grant flow = record flow { grant = none }

-- `None if v is None else str(v)`
version_text : Env → Option Value → Option String
version_text env none = none
version_text env (some null) = none
version_text env (some v) = some (env.text_of v)

-- `AuthClaimsContext.version_material`
unfoldable pub version_material : Env → Option Claims → Option String × Option String
unfolding version_text
version_material env none = (none, none)
version_material env (some []) = (none, none)
version_material env (some (c ∷ cs)) = (
  version_text env (get (c ∷ cs) "token_version"),
  version_text env (get (c ∷ cs) "security_stamp"),
)

-- A grant that is set is held as it is where it is well-formed, and no malformed one is ever held.
pub set_grant-held :
    (g : Option String) (flow : Flow) (held : String)
    → (set_grant g flow).grant ≡ some held
    → (g ≡ some held) × (is_well_formed held ≡ true)
unfolding set_grant well_formed_grant
set_grant-held none flow held h = cc
set_grant-held (some g) flow held h = ground arith

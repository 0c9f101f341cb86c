-- ===== src/Context/Tests.antt =====
-- Examples of the message hop and of the stripped claims.
use blocks_genesis_py.Prelude.{String, Bool, [], ◌∷◌, Option, none, some, refl}
use blocks_genesis_py.Json.{Value, bool, str}
use blocks_genesis_py.Context.Record.{BlocksContext, empty_context}
use blocks_genesis_py.Context.Fields.{Pydantic}
use blocks_genesis_py.Context.Claims.{Claims}

abbrev as_bool : Value → Option Bool
as_bool (bool b) = some b
as_bool _ = none

abbrev as_datetime : Value → Option String
as_datetime (str s) = some s
as_datetime _ = none

abbrev pydantic : Pydantic
pydantic = record { as_bool = as_bool; as_datetime = as_datetime; as_bool-bool = λ b. refl }

abbrev sender : BlocksContext
sender = record empty_context {
  tenant_id = "T";
  user_id = "u";
  email = "u@example.com";
  phone_number = "0123456789";
  oauth_token = "t";
  expire_on = some "2026-01-01T00:00:00";
}

abbrev claims : Claims
claims = ("tenant_id", str "X") ∷ ("sub", str "u") ∷ []

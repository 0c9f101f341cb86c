-- ===== src/Delegation/Endpoint/Tests.antt =====
-- A token endpoint that discovery gives.
use blocks_genesis_py.Prelude.{true, [], ◌∷◌, none, some, ◌≡◌, refl}
use blocks_genesis_py.Prelude.Dict.{get, insert}
use blocks_genesis_py.Prelude.Text.{is_blank}
use blocks_genesis_py.Json.{str, obj, no_fields, field}
use blocks_genesis_py.Delegation.Endpoint.{
  Settings, Network, answered, resolve_setting, try_discover, get_token_endpoint,
}
use blocks_genesis_py.Prelude.Result.{ok}

abbrev settings : Settings
settings = record { environment = λ key. some "https://iam"; configurations = none }

abbrev network : Network
network = record {
  fetch = λ url.
      answered 200 (some (obj (field "token_endpoint" (str "https://iam/oidc/token") no_fields)));
  is_absolute = λ url. some true;
}

-- What discovery gives is returned, and cached for the tenant.
discovered :
    get_token_endpoint settings network "T" []
    ≡ (ok "https://iam/oidc/token", ("T", "https://iam/oidc/token") ∷ [])
unfolding get_token_endpoint try_discover resolve_setting get insert is_blank
discovered = refl

-- ===== src/Delegation/Tokens/Tests.antt =====
-- Two callers of the token provider for one grant.
use blocks_genesis_py.Prelude.{ℕ, true, false, List, [], ◌∷◌, none, some, ◌≡◌, refl, ◌⊎◌}
use blocks_genesis_py.Prelude.Int.{pos}
use blocks_genesis_py.Prelude.Dict.{get, insert, pop}
use blocks_genesis_py.Json.{str, int, obj, no_fields, field, is_truthy}
use blocks_genesis_py.Tenancy.Tenant.{Tenant}
use blocks_genesis_py.Delegation.Exchange.{
  CachedToken, is_usable, Platform, answered, Attempt, first_of, lifetime, succeeded, read_token,
  exchange,
}
use blocks_genesis_py.Delegation.Exchange.Issued.{Exchanged, exchange-Exchanged}
use blocks_genesis_py.Delegation.Tokens.{
  usable_token, call, Event, calls, ends, step, run, new_provider,
}
use blocks_genesis_py.Delegation.Tokens.SingleFlight.{KeepsLock, single_flight}
use blocks_genesis_py.Delegation.Tokens.Served.{IsIssued, ServedFor, call_served}

abbrev platform : Platform
platform = record {
  hmac_sha256 = λ text key. "f0";
  digits = λ n. "1000";
  text_of = λ v. "token";
  json_loads = λ body.
      some
        (obj (field "access_token" (str "token") (field "expires_in" (int (pos 900)) no_fields)));
  int_of = λ v. some (pos 900);
}

abbrev tenant : Tenant
tenant = record {
  tenant_id = "T";
  is_accept_blocks_terms = true;
  is_use_blocks_exclusively = false;
  name = none;
  db_name = "db";
  applications = [];
  is_disabled = false;
  db_connection_string = "";
  tenant_salt = "salt";
  jwt_token_parameters = none;
  third_party_jwt_token_parameters = none;
  is_third_party_jwt_enabled = false;
  is_root_tenant = false;
  environment = "";
  tenant_group_id = "";
}

abbrev attempt : Attempt
attempt = record {
  tenant = some tenant;
  endpoint = some "https://iam/token";
  sent_at = 1000;
  nonce = "n";
  post = λ url form headers. answered 200 "{}";
  received_at = 1001;
}

abbrev cached : CachedToken
cached = record { access_token = "token"; expires_at = 1901 }

abbrev both_call : List Event
both_call = calls 0 (some "dg_1") "T" 1000 1000 ∷ calls 1 (some "dg_1") "T" 1000 1000 ∷ []

abbrev one_ended : List Event
one_ended = calls 0 (some "dg_1") "T" 1000 1000 ∷ ends 0 attempt ∷ []

keeps : KeepsLock platform "dg_1" both_call new_provider
unfolding KeepsLock step call usable_token get insert pop
keeps = (λ l h. cc, (λ l h. h, tt))

single_flight_example : ◌≡◌ {A = ℕ} 0 0
unfolding run step call usable_token get insert pop
single_flight_example = single_flight platform "dg_1" both_call 0 0 "T" "T" 0 0 keeps refl refl

call_served_example :
    ServedFor platform (IsIssued platform one_ended) "dg_1" 1002 "token"
    ⊎ ServedFor platform (IsIssued platform one_ended) "dg_1" 1003 "token"
unfolding run step call usable_token is_usable exchange read_token succeeded first_of lifetime get
    insert pop is_truthy
call_served_example = call_served platform one_ended 1 "T" "dg_1" "token" 1002 1003 refl

exchange-Exchanged_example : Exchanged platform attempt "T" "dg_1" cached
unfolding exchange read_token succeeded first_of lifetime get is_truthy
exchange-Exchanged_example = exchange-Exchanged platform attempt "T" "dg_1" cached refl

-- ===== src/Delegation/Endpoint.antt =====
-- IAM's token endpoint: blocks_genesis/_delegation/endpoint_resolver.py. A look-up is one step.
pub mod Resolved
mod Tests
use blocks_genesis_py.Prelude.{
  ℕ, String, Bool, true, false, List, [], ◌∷◌, Option, none, some, nat_eq, ◌==◌, if◌then◌else◌,
}
use blocks_genesis_py.Prelude.Dict.{Dict, get, insert}
use blocks_genesis_py.Prelude.Result.{Result, ok, err}
use blocks_genesis_py.Prelude.Text.{is_empty, is_blank, strip, rstrip_of, concat}
use blocks_genesis_py.Json.{Value, str, obj, fields, is_truthy}

-- The environment, and the configuration, `none` where none is loaded.
pub record Settings : Type 0 where
  pub environment : String → Option String
  pub configurations : Option (Dict Value)

pub data Answer : Type 0 where
  unreachable : Answer
  answered : (status : ℕ) (document : Option Value) → Answer

-- What is taken from outside: what a URL answers, with its JSON or `none` where it has none, and
-- whether a URL has a scheme and a host, `none` where `urllib.parse` raises.
pub record Network : Type 0 where
  pub fetch : String → Answer
  pub is_absolute : String → Option Bool

pub data EndpointError : Type 0 where
  runtime_error : EndpointError
  unhandled : EndpointError

filled_text : Option String → Option String
filled_text none = none
filled_text (some s) = if is_blank s then none else some (strip s)

text_setting : Option Value → Option String
unfolding filled_text
text_setting none = none
text_setting (some (str s)) = filled_text (some s)
text_setting (some v) = none

-- The keys of the section, where it is a dictionary.
section_of : Option Value → Dict Value
section_of none = []
section_of (some (obj fs)) = fields fs
section_of (some v) = []

or_else : Option String → Option String → Option String
or_else none b = b
or_else (some a) b = some a

configured : Option (Dict Value) → String → Option String
unfolding or_else text_setting section_of
configured none key = none
configured (some c) key =
    or_else (text_setting (get (section_of (get c "FrontendRuntime")) key))
      (text_setting (get c key))

unfoldable pub resolve_setting : Settings → String → Option String
unfolding or_else filled_text configured
resolve_setting s key = or_else (filled_text (s.environment key)) (configured s.configurations key)

base_url_key : String
base_url_key = "BLOCKS_IAM_BASE_URL"

pub endpoint_key : String
endpoint_key = "BLOCKS_IAM_TOKEN_ENDPOINT"

is_some_text : Option String → Bool
is_some_text none = false
is_some_text (some s) = true

-- `ensure_configured` does not raise.
unfoldable pub is_configured : Settings → Bool
unfolding is_some_text resolve_setting base_url_key endpoint_key
is_configured s =
    if is_some_text (resolve_setting s base_url_key)
    then true
    else is_some_text (resolve_setting s endpoint_key)

absolute : Option Bool → String → Result EndpointError (Option String)
absolute none endpoint = err unhandled
absolute (some true) endpoint = ok (some endpoint)
absolute (some false) endpoint = ok none

named : Network → Option Value → Result EndpointError (Option String)
unfolding absolute
named n (some (str endpoint)) = absolute (n.is_absolute endpoint) endpoint
named n v = ok none

-- A document that is neither empty nor an object has no `get`.
of_document : Network → Value → Result EndpointError (Option String)
unfolding named
of_document n (obj fs) = named n (get (fields fs) "token_endpoint")
of_document n v = if is_truthy v then err unhandled else ok none

of_answer : Network → Answer → Result EndpointError (Option String)
unfolding of_document
of_answer n unreachable = ok none
of_answer n (answered status none) = ok none
of_answer n (answered status (some document)) =
    if nat_eq status 200 then of_document n document else ok none

unfoldable pub discovery_url : String → String → String
discovery_url base_url tenant_id =
    concat (rstrip_of "/" base_url)
      (concat "/" (concat tenant_id "/.well-known/openid-configuration"))

discovered_at : Network → Option String → String → Result EndpointError (Option String)
unfolding of_answer discovery_url
discovered_at n none tenant_id = ok none
discovered_at n (some base_url) tenant_id = of_answer n (n.fetch (discovery_url base_url tenant_id))

-- `_try_discover_async`
unfoldable pub try_discover : Settings → Network → String → Result EndpointError (Option String)
unfolding discovered_at resolve_setting base_url_key
try_discover s n tenant_id = discovered_at n (resolve_setting s base_url_key) tenant_id

fallen_back : Option String → Dict String → Result EndpointError String × Dict String
fallen_back none discovered = (err runtime_error, discovered)
fallen_back (some endpoint) discovered = (ok endpoint, discovered)

after_discovery :
    Settings
    → String
    → Result EndpointError (Option String)
    → Dict String
    → Result EndpointError String × Dict String
unfolding fallen_back resolve_setting endpoint_key
after_discovery s tenant_id (err e) discovered = (err e, discovered)
after_discovery s tenant_id (ok none) discovered =
    fallen_back (resolve_setting s endpoint_key) discovered
after_discovery s tenant_id (ok (some endpoint)) discovered =
    if is_empty endpoint
    then fallen_back (resolve_setting s endpoint_key) discovered
    else (ok endpoint, insert discovered tenant_id endpoint)

-- An endpoint of the cache, where it is filled.
cached_or :
    Option String
    → Dict String
    → Result EndpointError String × Dict String
    → Result EndpointError String × Dict String
cached_or none discovered otherwise = otherwise
cached_or (some endpoint) discovered otherwise =
    if is_empty endpoint then otherwise else (ok endpoint, discovered)

unfoldable pub get_token_endpoint :
    Settings → Network → String → Dict String → Result EndpointError String × Dict String
unfolding cached_or after_discovery try_discover
get_token_endpoint s n tenant_id discovered =
    if is_empty tenant_id
    then (err runtime_error, discovered)
    else cached_or (get discovered tenant_id) discovered
        (after_discovery s tenant_id (try_discover s n tenant_id) discovered)

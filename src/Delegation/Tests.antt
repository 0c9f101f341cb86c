-- ===== src/Delegation/Tests.antt =====
-- Examples of a worker that holds a grant.
use Prim.Native.Nat.{compare, Ordering}
use Prim.Native.Char.{Char, code}
use blocks_genesis_py.Prelude.{
  String, true, false, List, [], ◌∷◌, Option, none, some, ◌≡◌, refl, ap, ◌∙◌,
}
use blocks_genesis_py.Prelude.Dict.{get, insert}
use blocks_genesis_py.Prelude.Result.{ok}
use blocks_genesis_py.Prelude.Text.{is_empty, starts_with, drop, len, all_chars, concat}
use blocks_genesis_py.Json.{Value, str, obj, Fields, field}
use blocks_genesis_py.Context.Record.{BlocksContext, empty_context}
use blocks_genesis_py.Context.Fields.{str_field}
use blocks_genesis_py.Delegation.Signature.{
  is_well_formed, is_lower_hex, IsTokenHex, new_grant_id, grant_key,
}
use blocks_genesis_py.Delegation.Flow.{Flow, Env, version_material}
use blocks_genesis_py.Delegation.GrantStore.{
  DelegationGrantRecord, is_client_grant, create, write, get_grant, lifetime_of, to_wire,
}
use blocks_genesis_py.Delegation.GrantStore.RoundTrip.{IsJson, get_grant-write}
use blocks_genesis_py.Delegation.GrantFactory.{create_for_send, create_for_user}
use blocks_genesis_py.Delegation.GrantFactory.Chained.{Chained, create_for_send_chained}

abbrev digits : String
digits = "0123456789abcdef0123456789abcdef0123456789abcdef0123456789abcdef"

abbrev held_id : String
held_id = "dg_0123456789abcdef0123456789abcdef0123456789abcdef0123456789abcdef"

token_hex : IsTokenHex digits
unfolding len all_chars is_lower_hex
token_hex = record { digits = refl; lower_hex = refl }

abbrev worker : Flow
worker = record {
  context = some (record empty_context { tenant_id = "T"; user_id = "u"; is_authenticated = true });
  auth_claims = none;
  grant = some held_id;
  cache = [];
}

-- A toy JSON for objects of texts: each text as its marked characters and a dot.
abbrev put : String → String → String
put String.[] rest = String.◌∷◌ "." rest
put (String.◌∷◌ c s) rest = String.◌∷◌ "x" (String.◌∷◌ c (put s rest))

abbrev put_all : List String → String
put_all [] = ""
put_all (s ∷ ss) = put s (put_all ss)

abbrev if_dot : Ordering → List String → List String → List String
if_dot Ordering.eq this that = this
if_dot _ this that = that

abbrev before : Char → List String → List String
before c [] = []
before c (s ∷ ss) = String.◌∷◌ c s ∷ ss

abbrev take_all : String → List String
take_all String.[] = []
take_all (String.◌∷◌ m String.[]) = if_dot (compare (code m) 46) ("" ∷ []) []
take_all (String.◌∷◌ m (String.◌∷◌ c rest)) =
    let whole = take_all (String.◌∷◌ c rest) in
    let less = take_all rest in if_dot (compare (code m) 46) ("" ∷ whole) (before c less)

take_all-dot : (rest : String) → take_all (String.◌∷◌ "." rest) ≡ "" ∷ take_all rest
take_all-dot String.[] = refl
take_all-dot (String.◌∷◌ c rest) = refl

take_all-put : (s rest : String) → take_all (put s rest) ≡ s ∷ take_all rest
take_all-put String.[] rest = take_all-dot rest
take_all-put (String.◌∷◌ c s) rest = rw (take_all-put s rest)

take_all-put_all : (ss : List String) → take_all (put_all ss) ≡ ss
take_all-put_all [] = refl
take_all-put_all (s ∷ ss) = take_all-put s (put_all ss) ∙ rw (take_all-put_all ss)

abbrev texts : Fields → List String
texts (field k (str s) fs) = s ∷ texts fs
texts _ = []

abbrev dumps : Value → String
dumps (obj fs) = put_all (texts fs)
dumps _ = ""

abbrev object : List String → Option Value
unfolding to_wire
object (a ∷ b ∷ c ∷ d ∷ e ∷ f ∷ g ∷ h ∷ []) = some (
    to_wire (record {
      tenant_id = a;
      user_id = b;
      organization_id = c;
      token_version = d;
      security_stamp = e;
      client_id = f;
      impersonation_session_id = g;
      original_tenant_id = h;
    }))
object _ = none

abbrev env : Env
env = record {
  text_of = λ v. "?";
  json_dumps = dumps;
  json_loads = λ s. object (take_all s);
  cache_up = true;
}

put_filled : (s rest : String) → is_empty (put s rest) ≡ false
put_filled String.[] rest = refl
put_filled (String.◌∷◌ c s) rest = refl

json : IsJson env
unfolding to_wire
json = record {
  filled = λ r. put_filled r.tenant_id _;
  loads_dumps = λ r. ap object (
      take_all-put_all (
        r.tenant_id ∷ r.user_id ∷ r.organization_id ∷ r.token_version ∷ r.security_stamp
        ∷ r.client_id ∷ r.impersonation_session_id ∷ r.original_tenant_id ∷ []));
}

abbrev granted : DelegationGrantRecord
granted = record {
  tenant_id = "T";
  user_id = "u";
  organization_id = "";
  token_version = "1";
  security_stamp = "s";
  client_id = "";
  impersonation_session_id = "";
  original_tenant_id = "";
}

get_grant-write_example :
    ((write env granted none digits worker).0 ≡ ok (new_grant_id digits))
    × (get_grant env (new_grant_id digits) (write env granted none digits worker).1
        ≡ ok (some granted))
get_grant-write_example = get_grant-write env json granted none digits worker refl token_hex

abbrev texts_held : List String
texts_held = "T" ∷ "u" ∷ "" ∷ "1" ∷ "s" ∷ "" ∷ "" ∷ "" ∷ []

abbrev holding : Flow
holding = record worker { cache = (concat "delegation:" held_id, (put_all texts_held, 60)) ∷ [] }

abbrev fresh : String
fresh = "ffffffffffffffffffffffffffffffffffffffffffffffffffffffffffffffff"

abbrev user : BlocksContext
user = record empty_context { tenant_id = "T"; user_id = "u"; is_authenticated = true }

abbrev sent : Flow
sent = record holding {
  cache =
      (concat "delegation:" held_id, (put_all texts_held, 60))
      ∷ (concat "delegation:" (concat "dg_" fresh), (put_all texts_held, 172800))
      ∷ [];
}

create_for_send_chained_example :
    (context : BlocksContext) × (some user ≡ some context)
    × (context.is_authenticated ≡ true)
    × Chained env context none fresh holding (concat "dg_" fresh) sent
unfolding create_for_send version_material create get_grant write is_well_formed starts_with drop
    len all_chars is_lower_hex get insert grant_key new_grant_id to_wire lifetime_of is_client_grant
    create_for_user str_field
create_for_send_chained_example =
    create_for_send_chained env none fresh holding (concat "dg_" fresh) sent refl refl

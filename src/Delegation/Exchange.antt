-- ===== src/Delegation/Exchange.antt =====
-- One token exchange: `_exchange_async` and `_read_token` of
-- blocks_genesis/_delegation/token_provider.py, with the signature of signature.py.
pub mod Issued
use blocks_genesis_py.Prelude.{
  ℕ, zero, suc, ◌+◌, ◌-◌, ◌*◌, String, Bool, true, false, not, ◌&&◌, List, [], ◌∷◌, Option, none,
  some, ltb, if◌then◌else◌,
}
use blocks_genesis_py.Prelude.Int.{ℤ, pos, negsuc}
use blocks_genesis_py.Prelude.Dict.{Dict, get}
use blocks_genesis_py.Prelude.Text.{is_empty, concat}
use blocks_genesis_py.Json.{Value, null, obj, fields, is_truthy}
use blocks_genesis_py.Tenancy.Tenant.{Tenant}

abbrev pub token_renewal_margin_seconds : ℕ
token_renewal_margin_seconds = 60

-- `_CachedToken`, with its expiry in seconds.
pub record CachedToken : Type 0 where
  pub access_token : String
  pub expires_at : ℕ

unfoldable pub is_usable : CachedToken → ℕ → Bool
is_usable token now = ltb now (token.expires_at - token_renewal_margin_seconds)

-- The pipe-delimited signature input; `ts` as its digits.
unfoldable pub build_signature_input : String → String → String → String → String
build_signature_input tenant_id delegation_id nonce ts =
    concat tenant_id (concat "|" (concat delegation_id (concat "|" (concat nonce (concat "|" ts)))))

-- What is taken from outside: HMAC-SHA256 of a text under a key, in hex, `str` of a number and of a
-- value, `json.loads`, and `int(v)`, `none` where these raise.
pub record Platform : Type 0 where
  pub hmac_sha256 : String → String → String
  pub digits : ℕ → String
  pub text_of : Value → String
  pub json_loads : String → Option Value
  pub int_of : Value → Option ℤ

pub data Response : Type 0 where
  raised : Response
  answered : ℕ → String → Response

-- What one exchange meets: the tenant as it is found, the resolved endpoint (`none` where resolving
-- raises), the clock and the nonce when it is sent, how IAM answers a form under a tenant's header, and
-- the clock when the answer is read.
pub record Attempt : Type 0 where
  pub tenant : Option Tenant
  pub endpoint : Option String
  pub sent_at : ℕ
  pub nonce : String
  pub post : String → Dict String → Dict String → Response
  pub received_at : ℕ

-- `_first_of`, of the value's keys; a value that is no object has none.
unfoldable pub first_of : Dict Value → List String → Option Value
first_of payload [] = none
first_of payload (name ∷ names) =
    let rest = first_of payload names in elim (get payload name) [ some v ↦ some v | none ↦ rest ]

-- The seconds that a token is kept for: a response with no lifetime gets twice the margin.
unfoldable pub lifetime : Option ℤ → ℕ
lifetime none = token_renewal_margin_seconds * 2
lifetime (some (negsuc n)) = token_renewal_margin_seconds * 2
lifetime (some (pos zero)) = token_renewal_margin_seconds * 2
lifetime (some (pos (suc n))) = suc n

unfoldable pub succeeded : ℕ → Bool
succeeded status = not (ltb status 200) && ltb status 300

module _ (p : Platform) where
  unfoldable pub sign : String → String → String → ℕ → String → String
  unfolding build_signature_input
  sign tenant_id delegation_id nonce ts tenant_salt =
      p.hmac_sha256 (build_signature_input tenant_id delegation_id nonce (p.digits ts)) tenant_salt

  unfoldable pub exchange_form : String → String → String → ℕ → String → Dict String
  unfolding sign
  exchange_form tenant_id delegation_id nonce ts salt =
      ("grant_type", "urn:ietf:params:oauth:grant-type:token-exchange")
      ∷ ("subject_token", delegation_id)
      ∷ ("subject_token_type", "urn:blocks:params:oauth:token-type:delegation-grant")
      ∷ ("nonce", nonce)
      ∷ ("ts", p.digits ts)
      ∷ ("sig", sign tenant_id delegation_id nonce ts salt)
      ∷ []

  int_or_none : Option Value → Option ℤ
  int_or_none none = none
  int_or_none (some v) = p.int_of v

  issued : ℕ → Dict Value → Option Value → Option CachedToken
  unfolding lifetime first_of int_or_none
  issued now payload none = none
  issued now payload (some v) =
      if is_truthy v
      then some (record {
        access_token = p.text_of v;
        expires_at =
            now
            + lifetime
                (int_or_none (first_of payload ("expires_in" ∷ "expiresIn" ∷ "ExpiresIn" ∷ [])));
      })
      else none

  of_payload : ℕ → Option Value → Option CachedToken
  unfolding issued first_of
  of_payload now (some (obj fs)) =
      issued now (fields fs)
        (first_of (fields fs) ("access_token" ∷ "accessToken" ∷ "AccessToken" ∷ []))
  of_payload now _ = none

  -- `_read_token`
  unfoldable pub read_token : String → ℕ → Option CachedToken
  unfolding of_payload
  read_token body now = of_payload now (p.json_loads body)

  of_response : ℕ → Response → Option CachedToken
  unfolding read_token succeeded
  of_response now raised = none
  of_response now (answered status body) = if succeeded status then read_token body now else none

  salt_of : Option Tenant → String
  salt_of none = ""
  salt_of (some t) = t.tenant_salt

  posted : Attempt → String → String → String → Option String → Option CachedToken
  unfolding of_response exchange_form
  posted a tenant_id delegation_id salt none = none
  posted a tenant_id delegation_id salt (some endpoint) = of_response a.received_at (
      a.post endpoint (exchange_form tenant_id delegation_id a.nonce a.sent_at salt)
        (("x-blocks-key", tenant_id) ∷ []))

  -- `_exchange_async`, with the handler of `get_token_async` round it: an exception gives no token.
  unfoldable pub exchange : Attempt → String → String → Option CachedToken
  unfolding salt_of posted
  exchange a tenant_id delegation_id =
      if is_empty (salt_of a.tenant)
      then none
      else posted a tenant_id delegation_id (salt_of a.tenant) a.endpoint

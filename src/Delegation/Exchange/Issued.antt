-- ===== src/Delegation/Exchange/Issued.antt =====
-- What an exchange that gives a token has met.
use blocks_genesis_py.Prelude.{
  ℕ, zero, suc, ◌<◌, ◌≤◌, String, false, [], ◌∷◌, Option, none, some, ◌≡◌, refl, inl, inr,
  Bool-cases, arith,
}
use blocks_genesis_py.Prelude.Int.{ℤ, pos, negsuc}
use blocks_genesis_py.Prelude.Dict.{Dict}
use blocks_genesis_py.Prelude.Text.{is_empty}
use blocks_genesis_py.Json.{Value, obj, fields}
use blocks_genesis_py.Tenancy.Tenant.{Tenant}
use blocks_genesis_py.Delegation.Exchange.{
  CachedToken, Platform, Response, raised, answered, Attempt, first_of, lifetime, succeeded,
  exchange_form, int_or_none, issued, of_payload, read_token, of_response, salt_of, posted,
  exchange,
}

lifetime-positive : (n : Option ℤ) → 0 < lifetime n
unfolding lifetime
lifetime-positive none = omega arith
lifetime-positive (some (negsuc n)) = omega arith
lifetime-positive (some (pos zero)) = omega arith
lifetime-positive (some (pos (suc n))) = omega arith

module _ (p : Platform) where
  issued-later :
      (now : ℕ) (payload : Dict Value) (v : Option Value) (c : CachedToken)
      → issued p now payload v ≡ some c
      → now < c.expires_at
  unfolding issued
  issued-later now payload none c e = cc
  issued-later now payload (some v) c e = ground (
    arith,
    lifetime-positive
        (int_or_none p (first_of payload ("expires_in" ∷ "expiresIn" ∷ "ExpiresIn" ∷ []))),
  )

  of_payload-later :
      (now : ℕ) (v : Option Value) (c : CachedToken)
      → of_payload p now v ≡ some c
      → now < c.expires_at
  unfolding of_payload
  of_payload-later now none c e = cc
  of_payload-later now (some (obj fs)) c e =
      issued-later now (fields fs)
        (first_of (fields fs) ("access_token" ∷ "accessToken" ∷ "AccessToken" ∷ [])) c e
  of_payload-later now (some v) c e = cc

  -- What IAM was sent and how it answered, for a token that an exchange has given.
  pub record Exchanged (a : Attempt) (tenant d : String) (c : CachedToken) : Type 0 where
    pub tenant_of : Tenant
    pub found : a.tenant ≡ some tenant_of
    pub salted : is_empty tenant_of.tenant_salt ≡ false
    pub endpoint : String
    pub resolved : a.endpoint ≡ some endpoint
    pub status : ℕ
    pub body : String
    pub response :
        a.post endpoint
          (exchange_form p tenant d a.nonce a.sent_at tenant_of.tenant_salt)
          (("x-blocks-key", tenant) ∷ [])
        ≡ answered status body
    pub success : (200 ≤ status) × (status < 300)
    pub token : read_token p body a.received_at ≡ some c
    pub unexpired : a.received_at < c.expires_at

  of_response-answered :
      (now : ℕ) (r : Response) (c : CachedToken)
      → of_response p now r ≡ some c
      → (status : ℕ) × (body : String) × (r ≡ answered status body)
        × ((200 ≤ status) × (status < 300))
        × (read_token p body now ≡ some c)
  unfolding of_response succeeded
  of_response-answered now raised c e = cc
  of_response-answered now (answered status body) c e =
      (status, body, refl, (ground arith, ground arith), ground arith)

  read_token-later :
      (body : String) (now : ℕ) (c : CachedToken)
      → read_token p body now ≡ some c
      → now < c.expires_at
  unfolding read_token
  read_token-later body now c e = of_payload-later now (p.json_loads body) c e

  exchange-found :
      (a : Attempt) (tenant d : String) (c : CachedToken) (t : Option Tenant) (q : Option String)
      → a.tenant ≡ t
      → a.endpoint ≡ q
      → is_empty (salt_of p t) ≡ false
      → posted p a tenant d (salt_of p t) q ≡ some c
      → Exchanged a tenant d c
  unfolding salt_of posted
  exchange-found a tenant d c none q f r s e = cc
  exchange-found a tenant d c (some t) none f r s e = cc
  exchange-found a tenant d c (some t) (some endpoint) f r s e =
      let sent =
        a.post endpoint (exchange_form p tenant d a.nonce a.sent_at t.tenant_salt)
          (("x-blocks-key", tenant) ∷ []) in
      let (status, body, ans, success, token) = of_response-answered a.received_at sent c e in
      record {
        tenant_of = t;
        found = f;
        salted = s;
        endpoint = endpoint;
        resolved = r;
        status = status;
        body = body;
        response = ans;
        success = success;
        token = token;
        unexpired = read_token-later body a.received_at c token;
      }

  -- An exchange gives a token only if the tenant was found with a salt, the endpoint was resolved, and
  -- IAM answered the form signed under that salt, sent with the tenant's header, with a status from 200
  -- to 299 and a body from which the token is read; the token expires after the answer came.
  pub exchange-Exchanged :
      (a : Attempt) (tenant d : String) (c : CachedToken)
      → exchange p a tenant d ≡ some c
      → Exchanged a tenant d c
  unfolding exchange
  exchange-Exchanged a tenant d c e = elim (Bool-cases (is_empty (salt_of p a.tenant))) [
    | inl s ↦ ground arith
    | inr s ↦ exchange-found a tenant d c a.tenant a.endpoint refl refl s (rw s at e)
  ]

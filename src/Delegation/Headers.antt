-- ===== src/Delegation/Headers.antt =====
-- `delegated_auth_headers` of blocks_genesis/_delegation/token_provider.py: the headers of an outbound
-- call. The token is the one that the provider gives for the ambient grant, `none` where it gives
-- none.
use blocks_genesis_py.Prelude.{
  String, Bool, true, false, not, ◌||◌, [], ◌∷◌, Option, none, some, ◌==◌, ◌≡◌, ap, inl, inr,
  if◌then◌else◌, eq_iff, Bool-cases, arith,
}
use blocks_genesis_py.Prelude.Dict.{Dict, get, insert, get-insert}
use blocks_genesis_py.Prelude.Text.{is_empty, lower, concat}
use blocks_genesis_py.Context.Record.{BlocksContext}

-- `any(key.lower() == name for key in headers)`
unfoldable pub carries : Dict String → String → Bool
carries [] name = false
carries ((k, v) ∷ headers) name = lower k == name || carries headers name

with_tenant : Dict String → Option BlocksContext → Dict String
unfolding carries
with_tenant headers none = headers
with_tenant headers (some c) =
    if is_empty c.tenant_id
    then headers
    else if carries headers "x-blocks-key"
    then headers
    else insert headers "x-blocks-key" c.tenant_id

with_token : Dict String → Option String → Option BlocksContext → Dict String
unfolding with_tenant
with_token headers none context = headers
with_token headers (some token) context =
    if is_empty token
    then headers
    else with_tenant (insert headers "Authorization" (concat "Bearer " token)) context

-- `DelegatedTokenContext.has_grant`
unfoldable pub has_grant : Option String → Bool
has_grant none = false
has_grant (some grant) = not (is_empty grant)

unfoldable pub delegated_auth_headers :
    Dict String → Option String → Option String → Option BlocksContext → Dict String
unfolding carries with_token has_grant
delegated_auth_headers existing grant token context =
    if carries existing "authorization"
    then existing
    else if has_grant grant
    then with_token existing token context
    else existing

get-carries :
    (headers : Dict String) (k v name : String)
    → get headers k ≡ some v
    → lower k ≡ name
    → carries headers name ≡ true
unfolding get carries
get-carries [] k v name h l = cc
get-carries ((j, w) ∷ headers) k v name h l = ground (
  arith,
  eq_iff j k,
  eq_iff (lower j) name,
  λ (e : j ≡ k). ap lower e,
  get-carries headers k v name,
)

insert-kept :
    (headers : Dict String) (j k u v : String)
    → carries headers (lower j) ≡ false
    → get headers k ≡ some v
    → get (insert headers j u) k ≡ some v
insert-kept headers j k u v c h = ground (
  arith,
  get-insert headers j k u,
  eq_iff j k,
  λ (e : j ≡ k). ap lower e,
  get-carries headers k v (lower j),
)

with_tenant-kept :
    (headers : Dict String) (context : Option BlocksContext) (k v : String)
    → get headers k ≡ some v
    → get (with_tenant headers context) k ≡ some v
unfolding with_tenant lower
with_tenant-kept headers none k v h = h
with_tenant-kept headers (some c) k v h = elim (Bool-cases (is_empty c.tenant_id)) [
  | inl e ↦ rw e h
  | inr e ↦ elim (Bool-cases (carries headers "x-blocks-key")) [
    | inl f ↦ rw (e, f) h
    | inr f ↦ rw (e, f) (insert-kept headers "x-blocks-key" k c.tenant_id v f h)
  ]
]

-- Every header that a call has already keeps its value, whichever grant, token and context the
-- delegated token's headers are added for.
pub delegated_auth_headers-kept :
    (existing : Dict String) (grant token : Option String) (context : Option BlocksContext)
    (k v : String)
    → get existing k ≡ some v
    → get (delegated_auth_headers existing grant token context) k ≡ some v
unfolding delegated_auth_headers with_token lower
delegated_auth_headers-kept existing grant none context k v h = ground arith
delegated_auth_headers-kept existing grant (some t) context k v h =
    elim (Bool-cases (carries existing "authorization")) [
      | inl e ↦ rw e h
      | inr e ↦ elim (Bool-cases (has_grant grant)) [
        | inl f ↦ elim (Bool-cases (is_empty t)) [
          | inl g ↦ rw (e, f, g) h
          | inr g ↦
              rw (e, f, g)
                (with_tenant-kept (insert existing "Authorization" (concat "Bearer " t)) context k v
                  (insert-kept existing "Authorization" k (concat "Bearer " t) v e h))
        ]
        | inr f ↦ rw (e, f) h
      ]
    ]

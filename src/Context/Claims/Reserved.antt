-- ===== src/Context/Claims/Reserved.antt =====
-- What stripping the reserved claims leaves, and who the third-party context names.
use blocks_genesis_py.Prelude.{String, not, none, ◌≡◌, ◌∙◌, inl, inr, Bool-cases, if◌then◌else◌}
use blocks_genesis_py.Prelude.Dict.{get, get-keep_keys}
use blocks_genesis_py.Context.Claims.{Claims, is_reserved, strip_reserved_claims}

-- A reserved claim is gone, and every other claim is what it was.
pub get-strip_reserved_claims :
    (claims : Claims) (k : String)
    → get (strip_reserved_claims claims) k ≡ (if is_reserved k then none else get claims k)
unfolding strip_reserved_claims
get-strip_reserved_claims claims k = elim (Bool-cases (is_reserved k)) [
  | inl e ↦ get-keep_keys (λ j. not (is_reserved j)) claims k ∙ rw e
  | inr e ↦ get-keep_keys (λ j. not (is_reserved j)) claims k ∙ rw e
]

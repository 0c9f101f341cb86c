-- ===== src/Middlewares/Sanitized.antt =====
-- What the recorded headers and query parameters of a request show.
use blocks_genesis_py.Prelude.{
  String, Bool, true, false, [], ◌∷◌, Option, none, some, ◌==◌, ◌≡◌, refl, ap, inl, inr, eq_iff,
  Bool-cases, arith,
}
use blocks_genesis_py.Prelude.Dict.{Dict, get}
use blocks_genesis_py.Middlewares.{is_sensitive_key, sanitize_dict}

unfoldable pub shown : Bool → Option String → Option String
shown sensitive none = none
shown true (some v) = some "[REDACTED]"
shown false (some v) = some v

-- What is recorded under a key is the value for a key that is not sensitive, a fixed text for one that
-- is, whatever its value, and nothing where there is no value.
pub sanitize_dict-get :
    (d : Dict String) (k : String) → get (sanitize_dict d) k ≡ shown (is_sensitive_key k) (get d k)
unfolding sanitize_dict shown get
sanitize_dict-get [] k = refl
sanitize_dict-get ((j, v) ∷ d) k = elim (Bool-cases (j == k)) [
  | inl e ↦
      let same : is_sensitive_key j ≡ is_sensitive_key k = ap is_sensitive_key ((eq_iff j k).0 e) in
      ground arith
  | inr e ↦ rw e (sanitize_dict-get d k)
]

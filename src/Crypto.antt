-- ===== src/Crypto.antt =====
-- blocks_genesis/_utilities/crypto_service.py: the envelope of a stored secret. A text of bytes is a
-- list of numbers. AES-GCM, SHA-256, base64 and UTF-8 are the platform's, and parameters.
pub mod Envelope
pub mod Tests
use blocks_genesis_py.Prelude.{
  ℕ, suc, zero, ◌+◌, String, Bool, true, false, not, ◌||◌, List, [], ◌∷◌, ◌++◌, Option, none, some,
  ◌≡◌, length, ltb, nat_eq, if◌then◌else◌,
}
use blocks_genesis_py.Prelude.Result.{Result, ok, err}
use blocks_genesis_py.Prelude.Text.{is_blank}

abbrev pub Bytes : Type 0
Bytes = List ℕ

-- What the service relies on: a sealed text is 16 bytes longer than the plain one and opens under its
-- key and nonce, and the decoders undo the encoders.
pub record Primitives : Type 0 where
  pub sha256 : Bytes → Bytes
  pub seal : Bytes → Bytes → Bytes → Bytes
  pub unseal : Bytes → Bytes → Bytes → Option Bytes
  pub b64encode : Bytes → String
  pub b64decode : String → Option Bytes
  pub utf8_encode : String → Bytes
  pub utf8_decode : Bytes → Option String
  pub unseal-seal : (key nonce plain : Bytes) → unseal key nonce (seal key nonce plain) ≡ some plain
  pub length-seal : (key nonce plain : Bytes) → length (seal key nonce plain) ≡ length plain + 16
  pub b64decode-encode : (raw : Bytes) → b64decode (b64encode raw) ≡ some raw
  pub b64encode_filled : (raw : Bytes) → is_blank (b64encode raw) ≡ true → raw ≡ []
  pub utf8_decode-encode : (s : String) → utf8_decode (utf8_encode s) ≡ some s

abbrev pub envelope_v1 : ℕ
envelope_v1 = 1

abbrev pub nonce_bytes : ℕ
nonce_bytes = 12

abbrev pub tag_bytes : ℕ
tag_bytes = 16

pub data CryptoError : Type 0 where
  empty_key_material unicode_error : CryptoError

-- `raw[0] != _ENVELOPE_V1`
first_is_not : ℕ → Bytes → Bool
first_is_not n [] = true
first_is_not n (b ∷ bs) = not (nat_eq b n)

-- `raw[:n]` and `raw[n:]`
unfoldable pub take : ℕ → Bytes → Bytes
take zero bs = []
take (suc n) [] = []
take (suc n) (b ∷ bs) = b ∷ take n bs

unfoldable pub drop : ℕ → Bytes → Bytes
drop zero bs = bs
drop (suc n) [] = []
drop (suc n) (b ∷ bs) = drop n bs

module _ (p : Primitives) where
  unfoldable pub derive_key : String → Bytes
  derive_key key_material = p.sha256 (p.utf8_encode key_material)

  -- The nonce is the one that `os.urandom` gives.
  unfoldable pub encrypt : Bytes → String → String → Result CryptoError String
  unfolding derive_key
  encrypt nonce plain_text key_material =
      if is_blank key_material
      then err empty_key_material
      else ok (
          p.b64encode (
            envelope_v1
            ∷ (nonce ++ p.seal (derive_key key_material) nonce (p.utf8_encode plain_text))))

  -- The text of an opened box; one that is no UTF-8 raises.
  decoded : Option Bytes → Result CryptoError (Option String)
  decoded none = ok none
  decoded (some plain) = elim (p.utf8_decode plain) [
    | none ↦ err unicode_error
    | some text ↦ ok (some text)
  ]

  opened : Bytes → String → Result CryptoError (Option String)
  unfolding decoded derive_key first_is_not
  opened raw key_material =
      if ltb (length raw) (1 + nonce_bytes + tag_bytes) || first_is_not envelope_v1 raw
      then ok none
      else decoded (
          p.unseal (derive_key key_material) (take nonce_bytes (drop 1 raw))
            (drop (1 + nonce_bytes) raw))

  unfoldable pub decrypt : String → String → Result CryptoError (Option String)
  unfolding opened
  decrypt envelope key_material =
      if is_blank envelope || is_blank key_material
      then ok none
      else elim (p.b64decode envelope) [ none ↦ ok none | some raw ↦ opened raw key_material ]

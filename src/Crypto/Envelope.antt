-- ===== src/Crypto/Envelope.antt =====
-- What is sealed under a key is what is opened under it.
use blocks_genesis_py.Prelude.{
  ◌+◌, String, false, [], ◌∷◌, ◌++◌, none, some, ◌≡◌, refl, ap, subst, ◌∙◌, ltb, ◌≤◌, inl, inr,
  Bool-cases, length, arith,
}
use blocks_genesis_py.Prelude.Result.{ok, err}
use blocks_genesis_py.Prelude.Text.{is_blank}
use blocks_genesis_py.Crypto.{
  Bytes, Primitives, unicode_error, nonce_bytes, take, drop, derive_key, encrypt, decoded, opened,
  decrypt,
}

take-append : (xs ys : Bytes) → take (length xs) (xs ++ ys) ≡ xs
unfolding take
take-append [] ys = refl
take-append (x ∷ xs) ys = ap (λ r. x ∷ r) (take-append xs ys)

drop-append : (xs ys : Bytes) → drop (length xs) (xs ++ ys) ≡ ys
unfolding drop
drop-append [] ys = refl
drop-append (x ∷ xs) ys = drop-append xs ys

length-append : (xs ys : Bytes) → length (xs ++ ys) ≡ length xs + length ys
length-append [] ys = omega arith
length-append (x ∷ xs) ys = omega (arith, length-append xs ys)

module _ (nonce sealed : Bytes) (h : length nonce ≡ nonce_bytes) where
  take-nonce : take 12 (nonce ++ sealed) ≡ nonce
  take-nonce = subst (λ n. take n (nonce ++ sealed) ≡ nonce) h (take-append nonce sealed)

  drop-nonce : drop 12 (nonce ++ sealed) ≡ sealed
  drop-nonce = subst (λ n. drop n (nonce ++ sealed) ≡ sealed) h (drop-append nonce sealed)

module _ (p : Primitives) where
  -- Bytes with the version, a nonce and at least a tag are opened under the derived key.
  opened_lem :
      (nonce sealed : Bytes) (key_material : String)
      → length nonce ≡ nonce_bytes
      → 16 ≤ length sealed
      → opened p (1 ∷ (nonce ++ sealed)) key_material
        ≡ decoded p (p.unseal (derive_key p key_material) nonce sealed)
  unfolding opened drop
  opened_lem nonce sealed key_material h long =
      let short : ltb (length (1 ∷ (nonce ++ sealed))) 29 ≡ false =
        ground (arith, length-append nonce sealed) in
      rw (short, take-nonce nonce sealed h, drop-nonce nonce sealed h)

  opened-seal :
      (nonce plain : Bytes) (key_material : String)
      → length nonce ≡ nonce_bytes
      → opened p (1 ∷ (nonce ++ p.seal (derive_key p key_material) nonce plain)) key_material
        ≡ decoded p (some plain)
  opened-seal nonce plain key_material h =
      opened_lem nonce (p.seal (derive_key p key_material) nonce plain) key_material h
        (omega (arith, p.length-seal (derive_key p key_material) nonce plain))
      ∙ ap (decoded p) (p.unseal-seal (derive_key p key_material) nonce plain)

  envelope_filled : (bs : Bytes) → is_blank (p.b64encode (1 ∷ bs)) ≡ false
  envelope_filled bs = elim (Bool-cases (is_blank (p.b64encode (1 ∷ bs)))) [
    | inl e ↦ cc (p.b64encode_filled (1 ∷ bs) e)
    | inr e ↦ e
  ]

  decrypt-encode :
      (bs : Bytes) (key_material : String)
      → is_blank key_material ≡ false
      → decrypt p (p.b64encode (1 ∷ bs)) key_material ≡ opened p (1 ∷ bs) key_material
  unfolding decrypt
  decrypt-encode bs key_material h = rw (envelope_filled bs, h, p.b64decode-encode (1 ∷ bs))

  -- A secret that was encrypted decrypts to itself under the same key material, for every nonce of
  -- twelve bytes and every key material that is not blank.
  pub decrypt-encrypt :
      (nonce : Bytes) (plain_text key_material envelope : String)
      → length nonce ≡ nonce_bytes
      → encrypt p nonce plain_text key_material ≡ ok envelope
      → decrypt p envelope key_material ≡ ok (some plain_text)
  unfolding encrypt decoded
  decrypt-encrypt nonce plain_text key_material envelope h e =
      elim (Bool-cases (is_blank key_material)) [
        | inl b ↦ cc (rw b at e)
        | inr f ↦
            let made : p.b64encode (
                  1
                  ∷ (nonce ++ p.seal (derive_key p key_material) nonce (p.utf8_encode plain_text)))
                ≡ envelope =
              ground arith in
            rw (← made) (
              rw (decrypt-encode _ key_material f) (
                rw (opened-seal nonce (p.utf8_encode plain_text) key_material h)
                  (rw (p.utf8_decode-encode plain_text, decoded))))
      ]

  -- A box that opens to bytes which are no UTF-8 makes `decrypt` raise.
  pub decrypt_raises :
      (nonce sealed plain : Bytes) (key_material : String)
      → length nonce ≡ nonce_bytes
      → 16 ≤ length sealed
      → is_blank key_material ≡ false
      → p.unseal (derive_key p key_material) nonce sealed ≡ some plain
      → p.utf8_decode plain ≡ none
      → decrypt p (p.b64encode (1 ∷ (nonce ++ sealed))) key_material ≡ err unicode_error
  unfolding decoded
  decrypt_raises nonce sealed plain key_material h long f opens bad =
      rw (decrypt-encode (nonce ++ sealed) key_material f)
        (rw (opened_lem nonce sealed key_material h long) (rw opens (rw (bad, decoded))))

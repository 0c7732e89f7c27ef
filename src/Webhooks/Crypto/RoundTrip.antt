-- ===== src/Webhooks/Crypto/RoundTrip.antt =====
-- src/webhooks.ts: what is encrypted can be read, also after the keys are rotated.
use total_recall.Base.{
  ◌≡◌, refl, ◌∙◌, Option, none, some, List, [], ◌∷◌, String, eq_iff, arith, get, Result, ok, err,
}
use total_recall.Connector.Attribution.{split_comma, nonempty_names}
use total_recall.Webhooks.Crypto.{
  add_entries, Cipher, Opens, EncryptedValue, EncryptionKeyRing, RingError, ring_of,
  parse_encryption_key_ring, additional_data, encrypt_value, decrypt_value,
}

abbrev pub sealed_value : {B : Type 0} → String → B → B × B → EncryptedValue B
sealed_value id iv sealed = record { key_id = id; ciphertext = sealed.0; iv = iv; tag = sealed.1 }

module _ {K : Type 0} (decode : String → Option K) where
  ring_of-current :
      (r : Result RingError (List (String × K))) (ring : EncryptionKeyRing K)
      → ring_of decode r ≡ ok ring
      → (key : K) × (get ring.current_id ring.keys ≡ some key)
  unfolding get
  ring_of-current (err e) ring h = absurd (ground arith)
  ring_of-current (ok []) ring h = absurd (ground arith)
  ring_of-current (ok ((id, key) ∷ keys)) ring h = (key, ground (arith, eq_iff id id))

  -- A ring that is parsed holds its current key.
  parse-current :
      (raw : Option String) (ring : EncryptionKeyRing K)
      → parse_encryption_key_ring decode raw ≡ ok ring
      → (key : K) × (get ring.current_id ring.keys ≡ some key)
  unfolding parse_encryption_key_ring
  parse-current none ring h = absurd (ground arith)
  parse-current (some raw) ring h =
      ring_of-current (add_entries decode (nonempty_names (split_comma raw)) []) ring (ground arith)

  -- With the ring of any text that parses, any text encrypts; and every later ring that still has the
  -- same key under the id that was current then, whichever key is current now, gives the text back for
  -- the same purpose. The cipher opens what it has sealed.
  pub decrypt-encrypt :
      {B : Type 0} (c : Cipher K B) (raw : Option String) (ring later : EncryptionKeyRing K)
      (plaintext purpose : String) (iv : B)
      → Opens c
      → parse_encryption_key_ring decode raw ≡ ok ring
      → get ring.current_id later.keys ≡ get ring.current_id ring.keys
      → (v : EncryptedValue B) × (encrypt_value c plaintext ring purpose iv ≡ ok v)
        × (decrypt_value c v later purpose ≡ ok plaintext)
  unfolding encrypt_value decrypt_value
  decrypt-encrypt c raw ring later plaintext purpose iv opens parsed kept =
      let (key, current) = parse-current raw ring parsed in
      let opened = opens key iv (additional_data purpose) plaintext in
      let sealed = c.seal key iv (additional_data purpose) plaintext in
      let found : get ring.current_id later.keys ≡ some key = kept ∙ current in
      (
        sealed_value ring.current_id iv sealed,
        rw (current, encrypt_value) refl,
        rw (found, decrypt_value) (rw opened refl),
      )

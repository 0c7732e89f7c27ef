-- ===== src/Webhooks/Crypto/Tests.antt =====
-- A ring of two keys, a toy cipher over texts, and a value that is read after a rotation.
use total_recall.Base.{◌≡◌, refl, some, [], ◌∷◌, String, get, put, ok, err}
use total_recall.Connector.Attribution.{trim_start, trim_end, split_comma, nonempty_names}
use total_recall.Db.{is_blank}
use total_recall.Webhooks.Crypto.{
  Cipher, EncryptedValue, EncryptionKeyRing, invalid_or_duplicate_id, split_colon, is_key_id,
  add_entry, add_entries, parse_encryption_key_ring, encrypt_value, decrypt_value,
}
use total_recall.Webhooks.Crypto.RoundTrip.{decrypt-encrypt}

-- It hides nothing; it opens what it sealed.
abbrev plain : Cipher String String
plain = record {
  seal = λ key iv aad text. (text, key);
  unseal = λ key iv aad ciphertext tag. some ciphertext;
}

abbrev old_ring : EncryptionKeyRing String
old_ring = record { current_id = "k1"; keys = ("k1", "one") ∷ [] }

abbrev new_ring : EncryptionKeyRing String
new_ring = record { current_id = "k2"; keys = ("k2", "two") ∷ ("k1", "one") ∷ [] }

rings_parsed :
    (parse_encryption_key_ring (λ s. some s) (some "k1:one") ≡ ok old_ring)
    × (parse_encryption_key_ring (λ s. some s) (some " k2:two, k1:one ,") ≡ ok new_ring)
    × (parse_encryption_key_ring (λ s. some s) (some "k1:one,k1:two") ≡ err invalid_or_duplicate_id)
unfolding parse_encryption_key_ring add_entries add_entry split_colon is_key_id is_blank split_comma
    nonempty_names trim_start trim_end get put
rings_parsed = (refl, refl, refl)

decrypt-encrypt_example :
    (v : EncryptedValue String) × (encrypt_value plain "https://h" old_ring "webhook-url" "iv"
      ≡ ok v)
    × (decrypt_value plain v new_ring "webhook-url" ≡ ok "https://h")
unfolding get
decrypt-encrypt_example =
    decrypt-encrypt (λ s. some s) plain (some "k1:one") old_ring new_ring "https://h" "webhook-url"
      "iv" (λ k iv aad text. refl) (rings_parsed.0) refl

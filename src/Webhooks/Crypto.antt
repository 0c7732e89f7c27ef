-- ===== src/Webhooks/Crypto.antt =====
-- src/webhooks.ts: the ring of encryption keys, and values encrypted under its first key. The cipher
-- (AES-256-GCM of the platform) and the reading of base64 are parameters: `decode` yields the key of a
-- canonical text of 32 bytes, and nothing else.
mod RoundTrip
mod Tests
use Prim.Native.Char.{code}
use Prim.Native.String
use total_recall.Base.{
  ◌≡◌, ℕ, ◌==◌, leb, ltb, Bool, true, false, not, ◌&&◌, ◌||◌, Option, none, some, List, [], ◌∷◌,
  ◌++◌, String, str_eq, if◌then◌else◌, get, put, codes, all, length, is_some, Result, ok, err,
  is_digit,
}
use total_recall.Connector.Attribution.{trim, split_comma, nonempty_names}
use total_recall.Db.{is_blank}

-- Over keys K and buffers B: from a key, an initial vector, additional data and a text to the
-- ciphertext and its tag, and back.
pub record Cipher (K B : Type 0) : Type 0 where
  pub seal : K → B → List ℕ → String → B × B
  pub unseal : K → B → List ℕ → B → B → Option String

-- What the cipher promises: the same key, initial vector and additional data give the text back.
abbrev pub Opens : {K B : Type 0} → Cipher K B → Type 0
Opens {K} {B} c =
    (k : K) (iv : B) (aad : List ℕ) (text : String)
    → c.unseal k iv aad (c.seal k iv aad text).0 (c.seal k iv aad text).1 ≡ some text

pub record EncryptedValue (B : Type 0) : Type 0 where
  pub key_id : String
  pub ciphertext : B
  pub iv : B
  pub tag : B

pub record EncryptionKeyRing (K : Type 0) : Type 0 where
  pub current_id : String
  pub keys : List (String × K)

pub data RingError : Type 0 where
  disabled not_a_pair invalid_or_duplicate_id not_a_key no_keys : RingError

pub data CryptoError : Type 0 where
  no_current_key unknown_key invalid_ciphertext : CryptoError

-- `entry.slice(0, i)` and `entry.slice(i + 1)` at the first colon
unfoldable pub split_colon : String → Option (String × String)
split_colon String.[] = none
split_colon (String.◌∷◌ c s) =
    let rest = split_colon s in
    if code c == b':'
    then some ("", s)
    else elim rest [ none ↦ none | some parts ↦ some (String.◌∷◌ c parts.0, parts.1) ]

abbrev pub is_id_char : ℕ → Bool
is_id_char c =
    is_digit c
    || ((leb b'A' c && leb c b'Z')
        || ((leb b'a' c && leb c b'z') || (c == b'_' || (c == b'.' || c == b'-'))))

-- `/^[A-Za-z0-9_.-]{1,64}$/`
unfoldable pub is_key_id : String → Bool
is_key_id id =
    all is_id_char (codes id) && (leb 1 (length (codes id)) && leb (length (codes id)) 64)

module _ {K : Type 0} (decode : String → Option K) where
  -- One entry of the text.
  unfoldable pub add_entry : String → List (String × K) → Result RingError (List (String × K))
  unfolding split_colon is_key_id
  add_entry entry keys = elim (split_colon entry) [
    | none ↦ err not_a_pair
    | some (id, encoded) ↦
        if str_eq id ""
        then err not_a_pair
        else if not (is_key_id id) || is_some (get id keys)
        then err invalid_or_duplicate_id
        else elim (decode encoded) [ none ↦ err not_a_key | some key ↦ ok (put id key keys) ]
  ]

  unfoldable pub add_entries :
      List String → List (String × K) → Result RingError (List (String × K))
  unfolding add_entry
  add_entries [] keys = ok keys
  add_entries (entry ∷ entries) keys = elim (add_entry entry keys) [
    | err e ↦ err e
    | ok more ↦ add_entries entries more
  ]

  abbrev pub ring_of : Result RingError (List (String × K)) → Result RingError (EncryptionKeyRing K)
  ring_of (err e) = err e
  ring_of (ok []) = err no_keys
  ring_of (ok ((id, key) ∷ keys)) = ok (record { current_id = id; keys = (id, key) ∷ keys })

  unfoldable pub parse_encryption_key_ring : Option String → Result RingError (EncryptionKeyRing K)
  unfolding add_entries is_blank
  parse_encryption_key_ring none = err disabled
  parse_encryption_key_ring (some raw) =
      if is_blank raw
      then err disabled
      else ring_of (add_entries (nonempty_names (split_comma raw)) [])

-- Buffer.from(`total-recall:${purpose}:v1`)
abbrev pub additional_data : String → List ℕ
additional_data purpose = codes "total-recall:" ++ codes purpose ++ codes ":v1"

module _ {K B : Type 0} (c : Cipher K B) where
  -- `iv` is what randomBytes(12) yields.
  unfoldable pub encrypt_value :
      String → EncryptionKeyRing K → String → B → Result CryptoError (EncryptedValue B)
  encrypt_value plaintext ring purpose iv = elim (get ring.current_id ring.keys) [
    | none ↦ err no_current_key
    | some key ↦
        let sealed = c.seal key iv (additional_data purpose) plaintext in
        ok (record { key_id = ring.current_id; ciphertext = sealed.0; iv = iv; tag = sealed.1 })
  ]

  unfoldable pub decrypt_value :
      EncryptedValue B → EncryptionKeyRing K → String → Result CryptoError String
  decrypt_value v ring purpose = elim (get v.key_id ring.keys) [
    | none ↦ err unknown_key
    | some key ↦ elim (c.unseal key v.iv (additional_data purpose) v.ciphertext v.tag) [
      | none ↦ err invalid_ciphertext
      | some text ↦ ok text
    ]
  ]

-- ===== src/Secure/Crypto.antt =====
-- The third-party libraries of cloudflare/wasm/src/secure.rs (hmac, aes_gcm, chacha20poly1305, snow,
-- x25519_dalek, base64, prost, serde_json) as an interface, and what the code makes of them:
-- algorithms, proofs, traffic keys and nonces.
pub mod Nonces
use intranet_penetration_clo.Common.{
  ℕ, zero, suc, ◌/◌, ◌%◌, ◌+◌, ◌*◌, String, Bool, true, false, Option, List, [], ◌∷◌, ◌++◌, take,
  replicate, leb, if◌then◌else◌, ◌||◌,
}
use intranet_penetration_clo.Common.Result.{Result, ok, err, ok_or, ◌>>=◌}
use intranet_penetration_clo.Packet.{Bytes}
use intranet_penetration_clo.Secure.{
  Cipher, aes_gcm, aes_256_gcm, chacha20, SecureError, unknown_algorithm, seal_failed, open_failed,
}

-- `PeerConnNoiseMsg1Pb`
pub record Message1 : Type 0 where
  pub version : ℕ
  pub a_network_name : String
  pub a_session_generation : Option ℕ
  pub a_conn_id : Option (List ℕ)
  pub client_encryption_algorithm : String

-- `PeerConnSessionActionPb`
pub data SessionAction : Type 0 where
  join sync create : SessionAction

-- `PeerConnNoiseMsg2Pb`, less its constant fields.
pub record Message2 : Type 0 where
  pub b_network_name : String
  pub action : SessionAction
  pub b_session_generation : ℕ
  pub root_key_32 : Option Bytes
  pub initial_epoch : ℕ
  pub b_conn_id : Option (List ℕ)
  pub a_conn_id_echo : Option (List ℕ)
  pub secret_proof_32 : Option Bytes

-- `PeerConnNoiseMsg3Pb`
pub record Message3 : Type 0 where
  pub a_conn_id_echo : Option (List ℕ)
  pub b_conn_id_echo : Option (List ℕ)
  pub secret_proof_32 : Option Bytes

pub record AuthInfo : Type 0 where
  pub peer_id : ℕ
  pub network_name : String
  pub remote_public_key : Bytes

pub record Msg1Info : Type 0 where
  pub peer_id : ℕ
  pub network_name : String
  pub client_encryption_algorithm : String

-- The cipher's text and tag.
pub record Sealed : Type 0 where
  pub ciphertext : Bytes
  pub tag : Bytes

pub record Crypto : Type 1 where
  -- HMAC-SHA-256 of a message under a key of any length.
  pub hmac : Bytes → Bytes → Bytes
  pub seal_with : Cipher → (key nonce plaintext : Bytes) → Option Sealed
  pub open_with : Cipher → (key nonce ciphertext tag : Bytes) → Option Bytes
  pub public_of : Bytes → Bytes
  -- A Noise responder with the program's pattern and prologue, for a private key.
  pub Noise : Type 0
  pub responder : Bytes → Option Noise
  pub read_message : Bytes → Noise → Option Bytes × Noise
  pub write_message : Bytes → Noise → Option Bytes × Noise
  pub handshake_hash : Noise → Bytes
  pub remote_static : Noise → Option Bytes
  pub base64_decode : String → Option Bytes
  pub same_ignoring_case : String → String → Bool
  pub secret_bytes : String → Bytes
  pub decode_message1 : Bytes → Option Message1
  pub encode_message2 : Message2 → Bytes
  pub decode_message3 : Bytes → Option Message3
  pub msg1_json : Msg1Info → Option String
  pub auth_json : AuthInfo → Option String

-- `to_be_bytes` of a number of so many bytes.
unfoldable pub be_bytes : ℕ → ℕ → Bytes
be_bytes zero n = []
be_bytes (suc k) n = be_bytes k (n / 256) ++ n % 256 ∷ []

-- `from_be_bytes`
unfoldable pub from_be : Bytes → ℕ → ℕ
from_be [] n = n
from_be (b ∷ bs) n = from_be bs (n * 256 + b)

abbrev pub nonce_bytes : ℕ → ℕ → Bytes
nonce_bytes epoch sequence = be_bytes 4 epoch ++ be_bytes 8 sequence

-- `direction_index`, the direction 1 being `true`.
abbrev pub direction_index : ℕ → ℕ → Bool
direction_index sender receiver = leb receiver sender

abbrev direction_byte : Bool → ℕ
direction_byte true = 1
direction_byte false = 0

-- The bytes of a text of ASCII characters.
abbrev pub proof_label : Bytes
proof_label =
    101 ∷ 97 ∷ 115 ∷ 121 ∷ 116 ∷ 105 ∷ 101 ∷ 114 ∷ 32 ∷ 115 ∷ 101 ∷ 99 ∷ 114 ∷ 101 ∷ 116 ∷ 32 ∷ 112
    ∷ 114 ∷ 111 ∷ 111 ∷ 102 ∷ []

abbrev pub traffic_label : Bytes
traffic_label = 101 ∷ 116 ∷ 45 ∷ 116 ∷ 114 ∷ 97 ∷ 102 ∷ 102 ∷ 105 ∷ 99 ∷ []

module _ (c : Crypto) where
  unfoldable pub normalized_algorithm : String → Result SecureError Cipher
  normalized_algorithm value =
      if c.same_ignoring_case value "aes-gcm"
      then ok aes_gcm
      else if c.same_ignoring_case value "aes-256-gcm"
      then ok aes_256_gcm
      else if c.same_ignoring_case value "chacha20"
          || c.same_ignoring_case value "chacha20-poly1305"
      then ok chacha20
      else err unknown_algorithm

  -- The part of the key that the cipher takes.
  abbrev pub cipher_key : Cipher → Bytes → Bytes
  cipher_key aes_gcm key = take 16 key
  cipher_key aes_256_gcm key = key
  cipher_key chacha20 key = key

  unfoldable pub seal : String → Bytes → Bytes → Bytes → Result SecureError Sealed
  seal algorithm key nonce plaintext = do
    cipher ← normalized_algorithm algorithm
    ok_or (c.seal_with cipher (cipher_key cipher key) nonce plaintext) seal_failed

  unfoldable pub open_sealed : String → Bytes → Bytes → Bytes → Bytes → Result SecureError Bytes
  open_sealed algorithm key nonce ciphertext tag = do
    cipher ← normalized_algorithm algorithm
    ok_or (c.open_with cipher (cipher_key cipher key) nonce ciphertext tag) open_failed

  abbrev pub secret_proof : Bytes → Bytes → Bytes
  secret_proof secret challenge = c.hmac secret (proof_label ++ challenge)

  -- `traffic_key`, once there is a root key.
  abbrev pub traffic_key : Bytes → ℕ → Bool → Bytes
  traffic_key root_key epoch direction =
      c.hmac (c.hmac (replicate 32 0) root_key)
        (traffic_label ++ (be_bytes 4 epoch ++ direction_byte direction ∷ 1 ∷ []))

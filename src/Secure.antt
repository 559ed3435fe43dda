-- ===== src/Secure.antt =====
-- Secure sessions, cloudflare/wasm/src/secure.rs: what a peer and the session store keep. The
-- cryptography, the Noise protocol and the encodings are the interface Crypto. The replay window is
-- in Window.
pub mod Slots
pub mod Crypto
pub mod Payload
pub mod Sessions
pub mod Peer
pub mod Runs
pub mod Guard
pub mod Replay
pub mod Sealing
pub mod RoundTrip
mod Tests
pub mod Handshake
pub mod Channel
pub mod Authentication
use intranet_penetration_clo.Common.{ℕ, String, Bool, false, Option, none, List}
use intranet_penetration_clo.Common.Dict.{Dict}
use intranet_penetration_clo.Packet.{Bytes, PacketError}
use intranet_penetration_clo.Window.{ReplayWindow256, empty}

abbrev pub rx_epoch_idle_ms : ℕ
rx_epoch_idle_ms = 30_000

abbrev pub rotate_after_packets : ℕ
rotate_after_packets = 1_000_000

abbrev pub rotate_after_ms : ℕ
rotate_after_ms = 600_000

abbrev pub max_accepted_rx_epoch_ahead : ℕ
max_accepted_rx_epoch_ahead = 3

abbrev pub decrypt_fail_threshold : ℕ
decrypt_fail_threshold = 10

abbrev pub sync_rx_grace_after_ms : ℕ
sync_rx_grace_after_ms = 5_000

abbrev pub session_idle_ms : ℕ
session_idle_ms = 60_000

abbrev pub max_stored_sessions : ℕ
max_stored_sessions = 2_048

pub record EpochRxSlot : Type 0 where
  pub epoch : ℕ
  pub window : ReplayWindow256
  pub last_rx_ms : ℕ
  pub valid : Bool

abbrev pub no_slot : EpochRxSlot
no_slot = record { epoch = 0; window = empty; last_rx_ms = 0; valid = false }

-- `[EpochRxSlot; 2]`
pub record SlotPair : Type 0 where
  pub slot0 : EpochRxSlot
  pub slot1 : EpochRxSlot

-- A value for each direction, the direction 1 being `true`.
abbrev pub Directed : Type 0 → Type 0
Directed A = A × A

abbrev pub no_slots : Directed SlotPair
no_slots =
    (record { slot0 = no_slot; slot1 = no_slot }, record { slot0 = no_slot; slot1 = no_slot })

pub record SyncRxGrace : Type 0 where
  pub slots : Directed SlotPair
  pub expires_at_ms : ℕ
  pub valid : Bool

abbrev pub no_grace : SyncRxGrace
no_grace = record { slots = no_slots; expires_at_ms = 0; valid = false }

-- The fields that a peer loads from its session and saves to it.
pub record Traffic : Type 0 where
  pub send_epoch : ℕ
  pub send_seq : Directed ℕ
  pub send_epoch_started_ms : ℕ
  pub send_packets_since_epoch : ℕ
  pub rx_slots : Directed SlotPair
  pub sync_rx_grace : SyncRxGrace
  pub decrypt_fail_count : ℕ

-- `SessionKey`: network, peer, server peer and server key.
abbrev pub SessionKey : Type 0
SessionKey = String × (ℕ × (ℕ × Bytes))

pub record StoredSession : Type 0 where
  pub root_key : Bytes
  pub generation : ℕ
  pub traffic : Traffic
  pub client_algorithm : String
  pub remote_public_key : Option Bytes
  pub last_touch_ms : ℕ
  pub attachments : ℕ

abbrev pub Store : Type 0
Store = Dict SessionKey StoredSession

-- What `normalized_algorithm` maps the names of algorithms to.
pub data Cipher : Type 0 where
  aes_gcm aes_256_gcm chacha20 : Cipher

pub data SecureError : Type 0 where
  zero_server_peer bad_key key_mismatch already_started wrong_packet bad_peer_id noise_failed :
      SecureError
  undecodable bad_version bad_network unknown_algorithm empty_secret already_built : SecureError
  no_message1 no_message2 echo_mismatch no_proof no_secret no_challenge bad_proof no_remote_key :
      SecureError
  no_session_key session_gone algorithm_changed too_many_sessions random_failed identity_changed :
      SecureError
  attachments_exhausted not_authenticated wrong_address already_encrypted sequence_exhausted :
      SecureError
  seal_failed open_failed too_short no_root_key json_failed : SecureError
  bad_frame : PacketError → SecureError

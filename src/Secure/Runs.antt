-- ===== src/Secure/Runs.antt =====
-- Runs of a session's traffic: packets that are sealed and opened, one after another, in whatever
-- order, by the peers that are attached to the session.
use intranet_penetration_clo.Common.{
  ℕ, ◌-◌, String, Bool, true, false, not, ◌&&◌, Option, none, some, List, [], ◌∷◌, ltb,
  if◌then◌else◌, length, drop,
}
use intranet_penetration_clo.Common.Result.{Result, ok, err}
use intranet_penetration_clo.Packet.{Bytes}
use intranet_penetration_clo.Secure.{Traffic, SecureError}
use intranet_penetration_clo.Secure.Slots.{of_direction, is_idle}
use intranet_penetration_clo.Secure.Slots.History.{PacketId}
use intranet_penetration_clo.Secure.Crypto.{Crypto}
use intranet_penetration_clo.Secure.Payload.{
  encrypt_payload, decrypt_payload, epoch_of, sequence_of,
}
use intranet_penetration_clo.Secure.Sessions.{synced_traffic, sync_epoch}
use intranet_penetration_clo.Secure.Peer.{server_algorithm}

-- A plaintext to send, a payload that arrived, or a Sync of the session, with the time.
pub data Event : Type 0 where
  sent received : (now : ℕ) (bytes : Bytes) → Event
  synced : (now : ℕ) → Event

-- The nonce at the end of a sealed payload.
abbrev pub tail_of : Bytes → Bytes
tail_of payload = drop (length payload - 12) payload

abbrev pub with_nonce_of : Result SecureError Bytes → List Bytes → List Bytes
with_nonce_of (err e) later = later
with_nonce_of (ok payload) later = tail_of payload ∷ later

abbrev pub is_opened : Result SecureError (Option Bytes) → Bool
is_opened (err e) = false
is_opened (ok none) = false
is_opened (ok (some plaintext)) = true

module _ (c : Crypto) (algorithm : String) (inbound : Bool) (root_key : Bytes) where
  abbrev pub send : ℕ → Bytes → Traffic → Result SecureError Bytes × Traffic
  send now bytes = encrypt_payload c server_algorithm (not inbound) root_key bytes now

  abbrev pub receive : ℕ → Bytes → Traffic → Result SecureError (Option Bytes) × Traffic
  receive now bytes = decrypt_payload c algorithm inbound root_key bytes now

  -- The epochs and sequence numbers of the packets that are opened, in order.
  unfoldable pub opened : Traffic → List Event → List PacketId
  opened t [] = []
  opened t (sent now bytes ∷ events) = opened (send now bytes t).1 events
  opened t (synced now ∷ events) = opened (synced_traffic now t) events
  opened t (received now bytes ∷ events) =
      let (result, t') = receive now bytes t in
      let later = opened t' events in
      if is_opened result then (epoch_of bytes, sequence_of bytes) ∷ later else later

  -- There is no Sync, and whenever a packet arrives, the newest epoch is not idle and the packet's
  -- sequence number is below 2 ^ 32.
  unfoldable pub is_steady : Traffic → List Event → Bool
  is_steady t [] = true
  is_steady t (sent now bytes ∷ events) = is_steady (send now bytes t).1 events
  is_steady t (synced now ∷ events) = false
  is_steady t (received now bytes ∷ events) =
      not (is_idle now (of_direction inbound t.rx_slots).slot0)
      && (ltb (sequence_of bytes) 4_294_967_296 && is_steady (receive now bytes t).1 events)

  -- The nonces of the packets that are sealed, in order.
  unfoldable pub nonces : Traffic → List Event → List Bytes
  nonces t [] = []
  nonces t (sent now bytes ∷ events) =
      let (result, t') = send now bytes t in with_nonce_of result (nonces t' events)
  nonces t (received now bytes ∷ events) = nonces (receive now bytes t).1 events
  nonces t (synced now ∷ events) = nonces (synced_traffic now t) events

  -- No epoch is the last of 32 bits when the next one begins.
  unfoldable pub has_epochs : Traffic → List Event → Bool
  has_epochs t [] = true
  has_epochs t (sent now bytes ∷ events) =
      ltb t.send_epoch 4_294_967_295 && has_epochs (send now bytes t).1 events
  has_epochs t (received now bytes ∷ events) = has_epochs (receive now bytes t).1 events
  has_epochs t (synced now ∷ events) =
      ltb (sync_epoch t) 4_294_967_295 && has_epochs (synced_traffic now t) events

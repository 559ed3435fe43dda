-- ===== src/Secure/Channel.antt =====
-- The packets of an authenticated client: `encrypt_packet` and `decrypt_packet` of
-- cloudflare/wasm/src/secure.rs.
use intranet_penetration_clo.Common.{
  ℕ, bit_and, bit_or, String, Bool, true, false, not, ◌&&◌, Option, none, some, [], eqb,
  if◌then◌else◌,
}
use intranet_penetration_clo.Common.Result.{Result, ok}
use intranet_penetration_clo.Common.Action.{pure, ◌>>=◌, ◌>>◌, reading}
use intranet_penetration_clo.Packet.{Bytes, PacketHeader, encrypted_flag, is_encrypted}
use intranet_penetration_clo.Secure.{
  Traffic, SecureError, not_authenticated, no_message1, wrong_address, already_encrypted,
  no_root_key,
}
use intranet_penetration_clo.Secure.Crypto.{Crypto, direction_index}
use intranet_penetration_clo.Secure.Payload.{encrypt_payload, decrypt_payload}
use intranet_penetration_clo.Secure.Peer.{
  SecurePeer, SecureAction, need, check, split_packet, join_packet, server_algorithm,
  load_session_state, save_session_state,
}

abbrev pub or_default : Option String → String
or_default none = "aes-gcm"
or_default (some algorithm) = algorithm

module _ (c : Crypto) where
  abbrev pub is_ready : SecurePeer c → Bool
  is_ready peer = peer.authenticated && elim peer.root_key [ none ↦ false | some key ↦ true ]

  -- `ensure_authenticated`
  abbrev pub ensure_authenticated : SecureAction c (Unit {0})
  ensure_authenticated = reading (λ s. is_ready s.peer) (λ ready. check c ready not_authenticated)

  abbrev is_from : PacketHeader → ℕ → ℕ → Bool
  is_from h sender receiver = eqb h.from_peer_id sender && eqb h.to_peer_id receiver

  -- An operation on the traffic state, which changes also where it fails.
  abbrev on_traffic : {A : Type 0} → (Traffic → A × Traffic) → SecureAction c A
  on_traffic m s =
      let (r, t) = m s.peer.traffic in (ok r, record s { peer = record s.peer { traffic = t } })

  abbrev of_result : {A : Type 0} → Result SecureError A → SecureAction c A
  of_result r s = (r, s)

  abbrev clear_frame : PacketHeader → Option Bytes → Bytes
  clear_frame h none = []
  clear_frame h (some plaintext) =
      join_packet c (record h { flags = bit_and h.flags 254 }) plaintext

  -- The state is saved before an error of the decryption is raised.
  abbrev decrypt_with : PacketHeader → Bytes → ℕ → SecureAction c Bytes
  decrypt_with h payload now = do
    algorithm ← reading (λ s. or_default s.peer.client_algorithm) (λ name. pure name)
    root_key ← reading (λ s. s.peer.root_key) (λ o. need c o no_root_key)
    result ← on_traffic (
        decrypt_payload c algorithm (direction_index h.from_peer_id h.to_peer_id) root_key payload
          now)
    save_session_state c now
    plaintext ← of_result result
    pure (clear_frame h plaintext)

  -- `peer_id.unwrap()` is that of an authenticated peer.
  unfoldable pub decrypt_packet : Bytes → ℕ → SecureAction c Bytes
  decrypt_packet packet now = do
    ensure_authenticated
    load_session_state c
    frame ← split_packet c packet
    peer_id ← reading (λ s. s.peer.peer_id) (λ o. need c o no_message1)
    reading (λ s. is_from frame.header peer_id s.peer.server_peer_id)
        (λ good. check c good wrong_address)
    if not (is_encrypted frame.header.flags)
        then pure packet
        else decrypt_with frame.header frame.payload now

  abbrev encrypt_with : PacketHeader → Bytes → ℕ → SecureAction c Bytes
  encrypt_with h payload now = do
    root_key ← reading (λ s. s.peer.root_key) (λ o. need c o no_root_key)
    result ← on_traffic (
        encrypt_payload c server_algorithm (direction_index h.from_peer_id h.to_peer_id) root_key
          payload now)
    save_session_state c now
    encrypted ← of_result result
    pure (join_packet c (record h { flags = bit_or h.flags encrypted_flag }) encrypted)

  unfoldable pub encrypt_packet : Bytes → ℕ → SecureAction c Bytes
  encrypt_packet packet now = do
    ensure_authenticated
    load_session_state c
    frame ← split_packet c packet
    peer_id ← reading (λ s. s.peer.peer_id) (λ o. need c o no_message1)
    reading (λ s. is_from frame.header s.peer.server_peer_id peer_id)
        (λ good. check c good wrong_address)
    check c (not (is_encrypted frame.header.flags)) already_encrypted
    encrypt_with frame.header frame.payload now

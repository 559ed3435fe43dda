-- ===== src/Secure/Handshake.antt =====
-- The handshake of cloudflare/wasm/src/secure.rs: `read_msg1`, `build_msg2` and `finish_msg3`.
use Prim.Native.String.{len}
use intranet_penetration_clo.Common.{
  ℕ, String, Bool, true, false, not, ◌&&◌, ◌||◌, Option, none, some, List, length, eqb, ltb,
  if◌then◌else◌,
}
use intranet_penetration_clo.Common.Result.{Result, ok, err}
use intranet_penetration_clo.Common.Action.{pure, ◌>>=◌, ◌>>◌, reading}
use intranet_penetration_clo.Common.Key.{pair_key, text_key, nat_key, list_key}
use intranet_penetration_clo.Packet.{Bytes, PacketHeader, is_encrypted}
use intranet_penetration_clo.Packet.PacketType
use intranet_penetration_clo.Secure.{
  SessionKey, SecureError, already_started, wrong_packet, bad_peer_id, noise_failed, undecodable,
  bad_version, bad_network, json_failed, empty_secret, already_built, no_message1, random_failed,
  no_message2, echo_mismatch, no_proof, no_secret, no_challenge, bad_proof, no_remote_key,
}
use intranet_penetration_clo.Secure.Crypto.{
  Crypto, Message1, Message2, Message3, normalized_algorithm, secret_proof,
}
use intranet_penetration_clo.Secure.Sessions.{
  SessionSelection, upsert_session, confirm_session_public_key,
}
use intranet_penetration_clo.Secure.Peer.{
  SecurePeer, SecureAction, need, check, split_packet, join_packet, on_store, change_peer,
  protocol_version, attach_peer, load_session_state, session_key_of,
}

module _ (c : Crypto) where
  abbrev is_empty_text : String → Bool
  is_empty_text text = eqb (len text) 0

  -- What message 1 holds, or why it is refused.
  abbrev check_message1 : Message1 → Result SecureError Message1
  check_message1 m =
      if not (eqb m.version protocol_version)
      then err bad_version
      else if is_empty_text m.a_network_name || ltb 255 (len m.a_network_name)
      then err bad_network
      else elim (normalized_algorithm c m.client_encryption_algorithm) [
        | err e ↦ err e
        | ok cipher ↦ ok m
      ]

  abbrev pub decoded_message1 : Option Bytes → Result SecureError Message1
  decoded_message1 none = err noise_failed
  decoded_message1 (some plain) = elim (c.decode_message1 plain) [
    | none ↦ err undecodable
    | some m ↦ check_message1 m
  ]

  abbrev started : PacketHeader → Message1 → c.Noise → SecurePeer c → SecurePeer c
  started header m noise peer = record peer {
    peer_id = some header.from_peer_id;
    network_name = some m.a_network_name;
    client_algorithm = some m.client_encryption_algorithm;
    a_session_generation = m.a_session_generation;
    a_conn_id = m.a_conn_id;
    handshake = some noise;
  }

  abbrev is_some {ℓ} : {A : Type ℓ} → Option A → Bool
  is_some none = false
  is_some (some a) = true

  unfoldable pub read_msg1 : Bytes → SecureAction c String
  read_msg1 packet = do
    reading (λ s. not (is_some s.peer.handshake || s.peer.authenticated))
        (λ fresh. check c fresh already_started)
    frame ← split_packet c packet
    let h : PacketHeader = frame.header
    check c (eqb h.packet_type PacketType.noise_handshake_msg1 && not (is_encrypted h.flags))
        wrong_packet
    reading (λ s. not (eqb h.from_peer_id 0 || eqb h.from_peer_id s.peer.server_peer_id))
        (λ good. check c good bad_peer_id)
    responder ← reading (λ s. c.responder s.peer.local_private) (λ o. need c o noise_failed)
    let (plain, noise) = c.read_message frame.payload responder
    m ← (λ s. (decoded_message1 plain, s))
    change_peer c (started h m noise)
    need c
        (c.msg1_json (record {
          peer_id = h.from_peer_id;
          network_name = m.a_network_name;
          client_encryption_algorithm = m.client_encryption_algorithm;
        }))
        json_failed

  abbrev with_selection :
      Bytes → Bytes → SessionKey → SessionSelection → SecurePeer c → SecurePeer c
  with_selection challenge secret key session peer = record peer {
    proof_challenge = some challenge;
    network_secret = some secret;
    root_key = some session.session_root_key;
    session_key = some key;
  }

  -- The reply to message 1, less its constant fields.
  abbrev pub message2 : String → SessionSelection → Option (List ℕ) → List ℕ → Bytes → Message2
  message2 network session a_conn_id b_conn_id proof = record {
    b_network_name = network;
    action = session.action;
    b_session_generation = session.generation;
    root_key_32 = session.root_key_for_peer;
    initial_epoch = session.initial_epoch;
    b_conn_id = some b_conn_id;
    a_conn_id_echo = a_conn_id;
    secret_proof_32 = some proof;
  }

  -- The Noise state changes also where the message is not written.
  abbrev pub write_noise : Bytes → c.Noise → SecureAction c (Bytes × c.Noise)
  write_noise plain noise = do
    let (message, noise') = c.write_message plain noise
    change_peer c (λ peer. record peer { handshake = some noise' })
    bytes ← need c message noise_failed
    pure (bytes, noise')

  abbrev session_key_for : String → ℕ → SecurePeer c → SessionKey
  session_key_for network peer_id peer =
      (network, (peer_id, (peer.server_peer_id, peer.local_public)))

  abbrev wrapped : ℕ → Bytes → SecureAction c Bytes
  wrapped peer_id payload s = (
    ok (
        join_packet c
          (record {
            from_peer_id = s.peer.server_peer_id;
            to_peer_id = peer_id;
            packet_type = PacketType.noise_handshake_msg2;
            flags = 0;
            forward_counter = 1;
            reserved = 0;
            len = length payload;
          })
          payload),
    s,
  )

  -- `conn_id` and `random` are what is drawn for the connection and for a new session.
  unfoldable pub build_msg2 : String → ℕ → Option (List ℕ) → Option Bytes → SecureAction c Bytes
  build_msg2 secret now conn_id random = do
    check c (not (is_empty_text secret)) empty_secret
    reading (λ s. not (is_some s.peer.session_key)) (λ first. check c first already_built)
    peer_id ← reading (λ s. s.peer.peer_id) (λ o. need c o no_message1)
    network ← reading (λ s. s.peer.network_name) (λ o. need c o no_message1)
    noise ← reading (λ s. s.peer.handshake) (λ o. need c o no_message1)
    let proof = secret_proof c (c.secret_bytes secret) (c.handshake_hash noise)
    algorithm ← reading (λ s. s.peer.client_algorithm) (λ o. need c o no_message1)
    key ← reading (λ s. session_key_for network peer_id s.peer) (λ key. pure key)
    generation ← reading (λ s. s.peer.a_session_generation) (λ g. pure g)
    session ← on_store c (upsert_session key generation algorithm now random)
    b_conn_id ← need c conn_id random_failed
    a_conn_id ← reading (λ s. s.peer.a_conn_id) (λ id. pure id)
    written ←
        write_noise (c.encode_message2 (message2 network session a_conn_id b_conn_id proof)) noise
    change_peer c (with_selection (c.handshake_hash written.1) (c.secret_bytes secret) key session)
    attach_peer c now
    load_session_state c
    change_peer c (λ peer. record peer { b_conn_id = some b_conn_id })
    wrapped peer_id written.0

  same_id : Option (List ℕ) → Option (List ℕ) → Bool
  same_id none none = true
  same_id none (some b) = false
  same_id (some a) none = false
  same_id (some a) (some b) = list_key.same a b

  unfoldable pub is_echo : Message3 → SecurePeer c → Bool
  unfolding same_id
  is_echo m peer =
      same_id m.a_conn_id_echo peer.a_conn_id && same_id m.b_conn_id_echo peer.b_conn_id

  -- `handshake.take()`
  abbrev pub take_noise : SecureAction c c.Noise
  take_noise = do
    noise ← reading (λ s. s.peer.handshake) (λ o. need c o no_message2)
    change_peer c (λ peer. record peer { handshake = none })
    pure noise

  abbrev pub decoded_message3 : Option Bytes → Result SecureError Message3
  decoded_message3 none = err noise_failed
  decoded_message3 (some plain) = elim (c.decode_message3 plain) [
    | none ↦ err undecodable
    | some m ↦ ok m
  ]

  -- The client's proof that it has the network's secret.
  abbrev pub is_proof : Bytes → Bytes → Bytes → Bool
  is_proof proof secret challenge = list_key.same (secret_proof c secret challenge) proof

  unfoldable pub check_proof : Message3 → SecureAction c (Unit {0})
  check_proof m = do
    reading (λ s. is_echo m s.peer) (λ echo. check c echo echo_mismatch)
    proof ← need c m.secret_proof_32 no_proof
    secret ← reading (λ s. s.peer.network_secret) (λ o. need c o no_secret)
    challenge ← reading (λ s. s.peer.proof_challenge) (λ o. need c o no_challenge)
    check c (is_proof proof secret challenge) bad_proof

  abbrev pub key_of_32 : Option Bytes → Option Bytes
  key_of_32 none = none
  key_of_32 (some key) = if eqb (length key) 32 then some key else none

  -- The client's key must be the one that the session has had.
  unfoldable pub confirm_identity : ℕ → c.Noise → SecureAction c Bytes
  confirm_identity now noise = do
    remote ← need c (key_of_32 (c.remote_static noise)) no_remote_key
    key ← session_key_of c
    on_store c (confirm_session_public_key key remote now)
    pure remote

  abbrev network_or_default : Option String → String
  network_or_default none = ""
  network_or_default (some network) = network

  abbrev auth_result : ℕ → Bytes → SecureAction c String
  auth_result peer_id remote s =
      need c
        (c.auth_json (record {
          peer_id = peer_id;
          network_name = network_or_default s.peer.network_name;
          remote_public_key = remote;
        }))
        json_failed s

  abbrev pub is_message3 : PacketHeader → ℕ → ℕ → Bool
  is_message3 h peer_id server =
      eqb h.packet_type PacketType.noise_handshake_msg3
      && eqb h.from_peer_id peer_id
      && (eqb h.to_peer_id server && not (is_encrypted h.flags))

  unfoldable pub finish_msg3 : Bytes → ℕ → SecureAction c String
  unfolding check_proof confirm_identity
  finish_msg3 packet now = do
    frame ← split_packet c packet
    peer_id ← reading (λ s. s.peer.peer_id) (λ o. need c o no_message1)
    reading (λ s. is_message3 frame.header peer_id s.peer.server_peer_id)
        (λ good. check c good wrong_packet)
    taken ← take_noise
    let (plain, noise) = c.read_message frame.payload taken
    m ← (λ s. (decoded_message3 plain, s))
    check_proof m
    remote ← confirm_identity now noise
    change_peer c (λ peer. record peer { authenticated = true })
    auth_result peer_id remote

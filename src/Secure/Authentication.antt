-- ===== src/Secure/Authentication.antt =====
-- How a peer comes to be authenticated: the calls of one peer, between which other peers may change
-- the session store. Keeps, Outcomes and Steps treat single calls, Proofs whole runs.
pub mod Keeps
pub mod Outcomes
pub mod Steps
pub mod Proofs
use intranet_penetration_clo.Common.{
  ℕ, ◌≡◌, refl, String, Bool, true, false, not, ◌&&◌, ◌||◌, Option, none, some, List, [], ◌∷◌, eqb,
  if◌then◌else◌, length, drop, arith, Bool-cases, Option-cases, inl, inr, ◌⊎◌, ap, sym, ◌∙◌, subst,
}
use intranet_penetration_clo.Common.Result.{Result, ok, err, ok_or}
use intranet_penetration_clo.Common.Action.{Action, chain}
use intranet_penetration_clo.Common.Dict.{lookup, insert, lookup-insert_self}
use intranet_penetration_clo.Common.Key.{pair_key, text_key, nat_key, list_key}
use intranet_penetration_clo.Packet.{
  Bytes, PacketHeader, ParsedPacket, parse_packet, header_size, is_encrypted,
}
use intranet_penetration_clo.Secure.{
  SessionKey, StoredSession, Store, SecureError, echo_mismatch, no_proof, no_secret, no_challenge,
  bad_proof, no_remote_key, no_session_key, wrong_packet, no_message1, no_message2,
}
use intranet_penetration_clo.Secure.Crypto.{Crypto, Message3, secret_proof}
use intranet_penetration_clo.Secure.Sessions.{
  is_other, on_session, confirmed, confirm_session_public_key, persist_session_state,
  attach_session, upsert_session,
}
use intranet_penetration_clo.Secure.Peer.{
  SecurePeer, Secured, SecureAction, split_packet, need, check, on_store, load_session_state,
  save_session_state, attach_peer,
}
use intranet_penetration_clo.Secure.Handshake.{
  read_msg1, build_msg2, finish_msg3, is_message3, decoded_message3, is_echo, is_proof, key_of_32,
  check_proof, confirm_identity,
}
use intranet_penetration_clo.Secure.Channel.{encrypt_packet, decrypt_packet}

-- The calls of a peer, and whatever others make of the store.
pub data Call : Type 0 where
  read : (packet : Bytes) → Call
  build : (secret : String) (now : ℕ) (conn_id : Option (List ℕ)) (random : Option Bytes) → Call
  finish encrypt decrypt : (packet : Bytes) (now : ℕ) → Call
  others : (store : Store) → Call

abbrev pub is_ok : {A : Type 0} → Result SecureError A → Bool
is_ok (ok a) = true
is_ok (err e) = false

module _ (c : Crypto) where
  unfoldable pub after : Call → Secured c → Secured c
  after (read packet) s = (read_msg1 c packet s).1
  after (build secret now conn_id random) s = (build_msg2 c secret now conn_id random s).1
  after (finish packet now) s = (finish_msg3 c packet now s).1
  after (encrypt packet now) s = (encrypt_packet c packet now s).1
  after (decrypt packet now) s = (decrypt_packet c packet now s).1
  after (others store) s = record s { store = store }

  -- A last message that proves the network's secret and the client's key.
  pub record Proves (packet : Bytes) (now : ℕ) (s s' : Secured c) : Type 0 where
    pub header : PacketHeader
    pub peer_id : ℕ
    pub noise : c.Noise
    pub plain : Bytes
    pub message : Message3
    pub secret : Bytes
    pub challenge : Bytes
    pub remote : Bytes
    pub key : SessionKey
    pub session : StoredSession
    pub parsed : parse_packet packet ≡ ok header
    pub known : s.peer.peer_id ≡ some peer_id
    pub addressed : is_message3 c header peer_id s.peer.server_peer_id ≡ true
    pub handshaking : s.peer.handshake ≡ some noise
    pub readable : (c.read_message (drop header_size packet) noise).0 ≡ some plain
    pub decoded : c.decode_message3 plain ≡ some message
    pub echoed : is_echo c message s.peer ≡ true
    pub selected : s.peer.network_secret ≡ some secret
    pub challenged : s.peer.proof_challenge ≡ some challenge
    pub proven : message.secret_proof_32 ≡ some (secret_proof c secret challenge)
    pub identified :
        c.remote_static (c.read_message (drop header_size packet) noise).1 ≡ some remote
    pub sized : length remote ≡ 32
    pub keyed : s.peer.session_key ≡ some key
    pub stored : lookup key s.store ≡ some session
    pub consistent : is_other remote session.remote_public_key ≡ false
    pub kept :
        lookup key s'.store
        ≡ some (record session { remote_public_key = some remote; last_touch_ms = now })

  -- A call that proves the network's secret.
  abbrev pub Authenticates : Call → Secured c → Type 0
  Authenticates (finish packet now) s = Proves packet now s (finish_msg3 c packet now s).1
  Authenticates (read packet) s = ⊥
  Authenticates (build secret now conn_id random) s = ⊥
  Authenticates (encrypt packet now) s = ⊥
  Authenticates (decrypt packet now) s = ⊥
  Authenticates (others store) s = ⊥

  unfoldable pub run : List Call → Secured c → Secured c
  run [] s = s
  run (call ∷ calls) s = run calls (after call s)

  -- Such a call is among these.
  unfoldable pub Happens : List Call → Secured c → Type 0
  Happens [] s = ⊥
  Happens (call ∷ calls) s = Authenticates call s ⊎ Happens calls (after call s)

  -- A packet is passed, in one direction or the other.
  abbrev pub is_served : Bytes → ℕ → Secured c → Bool
  is_served packet now s =
      is_ok (encrypt_packet c packet now s).0 || is_ok (decrypt_packet c packet now s).0

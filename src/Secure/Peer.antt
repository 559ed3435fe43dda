-- ===== src/Secure/Peer.antt =====
-- The class `SecurePeer` of cloudflare/wasm/src/secure.rs: the handshake, and the packets between a
-- client and the relay. The state is a peer with the session store that all peers share; the clock
-- and the random draws are arguments.
use intranet_penetration_clo.Common.{
  ℕ, String, Bool, true, false, Option, none, some, List, ◌++◌, length, drop, eqb, if◌then◌else◌,
}
use intranet_penetration_clo.Common.Result.{Result, ok, err, ok_or}
use intranet_penetration_clo.Common.Action.{Action, ◌>>=◌, ◌>>◌}
use intranet_penetration_clo.Common.Dict.{lookup}
use intranet_penetration_clo.Common.Key.{pair_key, text_key, nat_key, list_key}
use intranet_penetration_clo.Packet.{
  Bytes, PacketHeader, ParsedPacket, parse_packet, to_bytes, header_size,
}
use intranet_penetration_clo.Secure.{
  Traffic, SessionKey, StoredSession, Store, SecureError, zero_server_peer, bad_key, key_mismatch,
  bad_frame, session_gone, no_session_key,
}
use intranet_penetration_clo.Secure.Crypto.{Crypto}
use intranet_penetration_clo.Secure.Sessions.{
  attach_session, persist_session_state, detach_session, new_traffic,
}

-- `SERVER_ENCRYPTION_ALGORITHM`
abbrev pub server_algorithm : String
server_algorithm = "aes-gcm"

abbrev pub protocol_version : ℕ
protocol_version = 1

module _ (c : Crypto) where
  pub record SecurePeer : Type 0 where
    pub local_private : Bytes
    pub local_public : Bytes
    pub server_peer_id : ℕ
    pub peer_id : Option ℕ
    pub network_name : Option String
    pub client_algorithm : Option String
    pub a_session_generation : Option ℕ
    pub a_conn_id : Option (List ℕ)
    pub b_conn_id : Option (List ℕ)
    pub handshake : Option c.Noise
    pub proof_challenge : Option Bytes
    pub network_secret : Option Bytes
    pub root_key : Option Bytes
    pub session_key : Option SessionKey
    pub session_attached : Bool
    pub traffic : Traffic
    pub authenticated : Bool

  pub record Secured : Type 0 where
    pub store : Store
    pub peer : SecurePeer

  abbrev pub SecureAction : Type 0 → Type 0
  SecureAction A = Action SecureError Secured A

  abbrev pub decode_key : String → Result SecureError Bytes
  decode_key value = elim (c.base64_decode value) [
    | none ↦ err bad_key
    | some key ↦ if eqb (length key) 32 then ok key else err bad_key
  ]

  abbrev pub fresh_peer : Bytes → Bytes → ℕ → ℕ → SecurePeer
  fresh_peer private public server_peer_id now = record {
    local_private = private;
    local_public = public;
    server_peer_id = server_peer_id;
    peer_id = none;
    network_name = none;
    client_algorithm = none;
    a_session_generation = none;
    a_conn_id = none;
    b_conn_id = none;
    handshake = none;
    proof_challenge = none;
    network_secret = none;
    root_key = none;
    session_key = none;
    session_attached = false;
    traffic = new_traffic now;
    authenticated = false;
  }

  abbrev with_keys :
      ℕ → ℕ → Result SecureError Bytes → Result SecureError Bytes → Result SecureError SecurePeer
  with_keys server_peer_id now (err e) public = err e
  with_keys server_peer_id now (ok private) (err e) = err e
  with_keys server_peer_id now (ok private) (ok public) =
      if list_key.same (c.public_of private) public
      then ok (fresh_peer private public server_peer_id now)
      else err key_mismatch

  -- `SecurePeer::new`
  unfoldable pub new_peer : String → String → ℕ → ℕ → Result SecureError SecurePeer
  new_peer private_text public_text server_peer_id now =
      if eqb server_peer_id 0
      then err zero_server_peer
      else with_keys server_peer_id now (decode_key private_text) (decode_key public_text)

  abbrev pub need : {A : Type 0} → Option A → SecureError → SecureAction A
  need o e s = (ok_or o e, s)

  abbrev pub check : Bool → SecureError → SecureAction (Unit {0})
  check true e s = (ok tt, s)
  check false e s = (err e, s)

  -- `split_packet`
  abbrev pub split_packet : Bytes → SecureAction ParsedPacket
  split_packet bytes s = elim (parse_packet bytes) [
    | err e ↦ (err (bad_frame e), s)
    | ok header ↦ (ok (record { header = header; payload = drop header_size bytes }), s)
  ]

  -- `join_header_payload`
  abbrev pub join_packet : PacketHeader → Bytes → Bytes
  join_packet header payload = to_bytes header ++ payload

  abbrev pub on_store : {A : Type 0} → Action SecureError Store A → SecureAction A
  on_store m s = let (r, store) = m s.store in (r, record s { store = store })

  abbrev pub change_peer : (SecurePeer → SecurePeer) → SecureAction (Unit {0})
  change_peer f s = (ok tt, record s { peer = f s.peer })

  -- The session of a peer, which must have one in the store.
  abbrev pub session_key_of : SecureAction SessionKey
  session_key_of s = (ok_or s.peer.session_key no_session_key, s)

  abbrev pub loaded : StoredSession → SecurePeer → SecurePeer
  loaded session peer = record peer { root_key = some session.root_key; traffic = session.traffic }

  abbrev pub load_from : Option StoredSession → SecureAction (Unit {0})
  load_from none s = (err session_gone, s)
  load_from (some session) s = change_peer (loaded session) s

  -- `load_session_state`
  unfoldable pub load_session_state : SecureAction (Unit {0})
  load_session_state = do key ← session_key_of; (λ s. load_from (lookup key s.store) s)

  -- `persist_session_state`
  unfoldable pub save_session_state : ℕ → SecureAction (Unit {0})
  save_session_state now = do
    key ← session_key_of
    (λ s. on_store (persist_session_state key s.peer.traffic now) s)

  -- `attach_session`
  unfoldable pub attach_peer : ℕ → SecureAction (Unit {0})
  attach_peer now = do
    key ← session_key_of
    on_store (attach_session key now)
    change_peer (λ peer. record peer { session_attached = true })

  abbrev drop_with : ℕ → Bool → Option SessionKey → Store → Store
  drop_with now true (some key) store = detach_session key now store
  drop_with now true none store = store
  drop_with now false key store = store

  -- `Drop for SecurePeer`: what is left of a peer that is freed.
  unfoldable pub drop_peer : ℕ → Secured → Store
  drop_peer now s = drop_with now s.peer.session_attached s.peer.session_key s.store

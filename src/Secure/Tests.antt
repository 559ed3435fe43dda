-- ===== src/Secure/Tests.antt =====
-- Secure sessions on concrete inputs, with a cipher that leaves the text as it is.
use text.Mathlib.Text.{◌==◌ as str_eq}
use intranet_penetration_clo.Common.{
  ℕ, ◌-◌, ◌<◌, ◌≤◌, ◌≡◌, refl, arith, true, false, none, some, List, [], ◌∷◌, ◌++◌, length,
  replicate,
}
use intranet_penetration_clo.Common.Result.{ok}
use intranet_penetration_clo.Packet.{Bytes}
use intranet_penetration_clo.Window.{accept, can_accept, test_bit, set_bit, shift_right, byte_bit}
use intranet_penetration_clo.Secure.{Traffic}
use intranet_penetration_clo.Secure.Slots.{
  is_idle, clear_slot, evict_old_rx_slots, precheck_slots, precheck_replay, commit_slots,
  commit_replay,
}
use intranet_penetration_clo.Secure.Crypto.{
  Crypto, Message1, Message3, nonce_bytes, be_bytes, from_be, normalized_algorithm, seal,
  open_sealed,
}
use intranet_penetration_clo.Secure.Payload.{
  epoch_of, sequence_of, maybe_rotate_epoch, encrypt_payload, decrypt_payload,
}
use intranet_penetration_clo.Secure.Sessions.{new_traffic}
use intranet_penetration_clo.Secure.Runs.{
  Event, sent, received, receive, opened, is_steady, synced, nonces, has_epochs,
}
use intranet_penetration_clo.Packet.{parse_packet, to_bytes, expected_len}
use intranet_penetration_clo.Packet.PacketType.{noise_handshake_msg1, noise_handshake_msg3}
use intranet_penetration_clo.Common.Dict.{lookup, insert}
use intranet_penetration_clo.Common.Key.{pair_key, text_key, nat_key, list_key}
use intranet_penetration_clo.Secure.Crypto.{secret_proof}
use intranet_penetration_clo.Secure.Sessions.{
  upsert_session, select_session, attach_session, persist_session_state, confirm_session_public_key,
}
use intranet_penetration_clo.Secure.Peer.{
  Secured, fresh_peer, attach_peer, load_session_state, save_session_state,
}
use intranet_penetration_clo.Secure.Handshake.{
  read_msg1, build_msg2, finish_msg3, check_proof, confirm_identity, is_echo,
}
use intranet_penetration_clo.Secure.Channel.{encrypt_packet, decrypt_packet}
use intranet_penetration_clo.Secure.Authentication.{
  Call, read, build, finish, after, run, is_served, Happens,
}
use intranet_penetration_clo.Secure.Authentication.Proofs.{is_served-Happens}
use intranet_penetration_clo.Secure.{SessionKey, StoredSession, max_stored_sessions}
use intranet_penetration_clo.Secure.Sessions.Calls.{
  StoreCall, upsert, detach, confirm, store_run, departures,
}
use intranet_penetration_clo.Secure.Sessions.Attached.{Holds, store_run-Holds}
use intranet_penetration_clo.Secure.Sessions.Bounds.{store_run_bounded}
use intranet_penetration_clo.Secure.Sealing.Numbering.{AllDifferent}
use intranet_penetration_clo.Secure.Sealing.{nonces-AllDifferent}
use intranet_penetration_clo.Secure.RoundTrip.{IsAead, decrypt_payload-encrypt_payload}
use intranet_penetration_clo.Secure.Replay.{opened-Distinct, Distinct, receive_replays}

abbrev message1 : Message1
message1 = record {
  version = 1;
  a_network_name = "home";
  a_session_generation = none;
  a_conn_id = some (1 ∷ []);
  client_encryption_algorithm = "aes-gcm";
}

abbrev message3 : Bytes → Message3
message3 proof = record {
  a_conn_id_echo = some (1 ∷ []);
  b_conn_id_echo = some (2 ∷ []);
  secret_proof_32 = some proof;
}

-- The tag is the same for all keys; a Noise state is the bytes of a handshake.
abbrev plain : Crypto
plain = record {
  hmac = λ key message. key ++ message;
  seal_with = λ cipher key nonce text. some (record { ciphertext = text; tag = replicate 16 7 });
  open_with = λ cipher key nonce text tag. some text;
  public_of = λ private. private;
  Noise = Bytes;
  responder = λ private. some private;
  read_message = λ message noise. (some message, noise);
  write_message = λ message noise. (some message, noise);
  handshake_hash = λ noise. 9 ∷ [];
  remote_static = λ noise. some (replicate 32 5);
  base64_decode = λ text. none;
  same_ignoring_case = str_eq;
  secret_bytes = λ text. 8 ∷ [];
  decode_message1 = λ bytes. some message1;
  encode_message2 = λ message. 2 ∷ [];
  decode_message3 = λ bytes. some (message3 bytes);
  msg1_json = λ info. some "message 1";
  auth_json = λ info. some "authenticated";
}

abbrev payload : ℕ → ℕ → Bytes
payload epoch sequence = 65 ∷ (replicate 16 7 ++ nonce_bytes epoch sequence)

abbrev events : List Event
events =
    received 5 (payload 0 0)
    ∷ sent 6 (66 ∷ [])
    ∷ received 7 (payload 1 3)
    ∷ received 8 (payload 0 0)
    ∷ received 9 (payload 0 1)
    ∷ []

opened-events :
    opened plain "aes-gcm" true [] (new_traffic 1) events ≡ (0, 0) ∷ (1, 3) ∷ (0, 1) ∷ []
unfolding opened decrypt_payload encrypt_payload evict_old_rx_slots clear_slot precheck_slots
    precheck_replay commit_slots commit_replay be_bytes from_be normalized_algorithm seal
    open_sealed maybe_rotate_epoch accept can_accept test_bit set_bit shift_right byte_bit
opened-events = refl

steady : is_steady plain "aes-gcm" true [] (new_traffic 1) events ≡ true
unfolding is_steady decrypt_payload encrypt_payload evict_old_rx_slots clear_slot precheck_slots
    precheck_replay commit_slots commit_replay be_bytes from_be normalized_algorithm seal
    open_sealed maybe_rotate_epoch accept can_accept test_bit set_bit shift_right byte_bit
steady = refl

opened-Distinct_example : Distinct (opened plain "aes-gcm" true [] (new_traffic 1) events)
opened-Distinct_example = opened-Distinct plain "aes-gcm" true [] 1 events steady

-- The session after its first packet.
abbrev one_packet : Traffic
one_packet = (receive plain "aes-gcm" true [] 5 (payload 0 0) (new_traffic 1)).1

first_opened :
    (receive plain "aes-gcm" true [] 5 (payload 0 0) (new_traffic 1)).0 ≡ ok (some (65 ∷ []))
unfolding decrypt_payload evict_old_rx_slots precheck_slots precheck_replay commit_slots
    commit_replay be_bytes from_be normalized_algorithm open_sealed accept test_bit set_bit
first_opened = refl

one_packet_settled : one_packet.sync_rx_grace.valid ≡ false
unfolding decrypt_payload evict_old_rx_slots precheck_slots precheck_replay commit_slots
    commit_replay be_bytes from_be normalized_algorithm open_sealed accept test_bit set_bit
one_packet_settled = refl

one_packet_idle : is_idle 30_006 one_packet.rx_slots.1.slot0 ≡ true
unfolding decrypt_payload evict_old_rx_slots precheck_slots precheck_replay commit_slots
    commit_replay be_bytes from_be normalized_algorithm open_sealed accept test_bit set_bit
one_packet_idle = refl

receive_replays_example :
    (receive plain "aes-gcm" true [] 30_006 (payload 0 0) one_packet).0 ≡ ok (some (65 ∷ []))
receive_replays_example =
    receive_replays plain "aes-gcm" true [] 5 30_006 (payload 0 0) (new_traffic 1) one_packet
      (65 ∷ []) first_opened one_packet_settled one_packet_idle

abbrev sends : List Event
sends =
    sent 6 (66 ∷ [])
    ∷ received 7 (payload 1 3)
    ∷ sent 8 (67 ∷ [])
    ∷ synced 9
    ∷ sent 10 (66 ∷ [])
    ∷ []

nonces-sends :
    nonces plain "aes-gcm" true [] (new_traffic 1) sends
    ≡ nonce_bytes 0 0 ∷ nonce_bytes 0 1 ∷ nonce_bytes 2 0 ∷ []
unfolding nonces decrypt_payload encrypt_payload evict_old_rx_slots precheck_slots precheck_replay
    commit_slots commit_replay be_bytes from_be normalized_algorithm seal open_sealed
    maybe_rotate_epoch accept test_bit set_bit
nonces-sends = refl

has_epochs-sends : has_epochs plain "aes-gcm" true [] (new_traffic 1) sends ≡ true
unfolding has_epochs decrypt_payload encrypt_payload evict_old_rx_slots precheck_slots
    precheck_replay commit_slots commit_replay be_bytes from_be normalized_algorithm seal
    open_sealed maybe_rotate_epoch accept test_bit set_bit
has_epochs-sends = refl

nonces-AllDifferent_example : AllDifferent (nonces plain "aes-gcm" true [] (new_traffic 1) sends)
nonces-AllDifferent_example =
    nonces-AllDifferent plain "aes-gcm" true [] (new_traffic 1) sends has_epochs-sends

-- After a packet of the last epoch, a Sync leads back to the first nonce.
nonces_again :
    nonces plain "aes-gcm" true []
      (new_traffic 1)
      (sent 6 (66 ∷ []) ∷ received 7 (payload 4_294_967_295 0) ∷ synced 8 ∷ sent 9 (67 ∷ []) ∷ [])
    ≡ nonce_bytes 0 0 ∷ nonce_bytes 0 0 ∷ []
unfolding nonces decrypt_payload encrypt_payload evict_old_rx_slots precheck_slots precheck_replay
    commit_slots commit_replay be_bytes from_be normalized_algorithm seal open_sealed
    maybe_rotate_epoch accept test_bit set_bit
nonces_again = refl

plain-IsAead : IsAead plain
plain-IsAead = record {
  opens = λ cipher key nonce text s h. ground (arith, h);
  tags = λ cipher key nonce text s h. ground (arith, h);
}

sealed_text :
    (encrypt_payload plain "aes-gcm" true [] (65 ∷ []) 5 (new_traffic 1)).0 ≡ ok (payload 0 0)
unfolding encrypt_payload be_bytes normalized_algorithm seal maybe_rotate_epoch
sealed_text = refl

payload_checked :
    precheck_replay
      (epoch_of (payload 0 0))
      (sequence_of (payload 0 0))
      true
      (evict_old_rx_slots 7 (new_traffic 2))
    ≡ true
unfolding precheck_slots precheck_replay evict_old_rx_slots be_bytes from_be
payload_checked = refl

decrypt_payload-encrypt_payload_example :
    (decrypt_payload plain "aes-gcm" true [] (payload 0 0) 7 (new_traffic 2)).0
    ≡ ok (some (65 ∷ []))
decrypt_payload-encrypt_payload_example =
    decrypt_payload-encrypt_payload plain plain-IsAead "aes-gcm" true [] (65 ∷ []) (payload 0 0) 5 7
      (new_traffic 1) (new_traffic 2) (omega arith) sealed_text payload_checked

abbrev fresh : Secured plain
fresh = record {
  store = [];
  peer = fresh_peer plain (replicate 32 3) (replicate 32 3) 10_000_001 1;
}

abbrev packet : ℕ → ℕ → ℕ → Bytes → Bytes
packet sender receiver packet_type bytes =
    to_bytes (record {
      from_peer_id = sender;
      to_peer_id = receiver;
      packet_type = packet_type;
      flags = 0;
      forward_counter = 1;
      reserved = 0;
      len = length bytes;
    })
    ++ bytes

abbrev handshake : List Call
handshake =
    read (packet 7 10_000_001 noise_handshake_msg1 [])
    ∷ build "secret" 2 (some (2 ∷ [])) (some (replicate 32 4))
    ∷ finish (packet 7 10_000_001 noise_handshake_msg3 (secret_proof plain (8 ∷ []) (9 ∷ []))) 3
    ∷ []

served : is_served plain (packet 10_000_001 7 1 (65 ∷ [])) 4 (run plain handshake fresh) ≡ true
unfolding run after read_msg1 build_msg2 finish_msg3 check_proof confirm_identity is_echo
    upsert_session select_session lookup insert attach_peer attach_session load_session_state
    save_session_state persist_session_state confirm_session_public_key parse_packet to_bytes
    normalized_algorithm encrypt_packet encrypt_payload decrypt_packet seal be_bytes
    maybe_rotate_epoch expected_len
served = refl

is_served-Happens_example : Happens plain handshake fresh
is_served-Happens_example =
    is_served-Happens plain handshake (packet 10_000_001 7 1 (65 ∷ [])) 4 fresh refl served

abbrev session_key : SessionKey
session_key = ("home", (7, (10_000_001, 3 ∷ [])))

abbrev other_key : SessionKey
other_key = ("work", (8, (10_000_001, 3 ∷ [])))

abbrev session : StoredSession
session = record {
  root_key = 4 ∷ [];
  generation = 1;
  traffic = new_traffic 1;
  client_algorithm = "aes-gcm";
  remote_public_key = some (5 ∷ []);
  last_touch_ms = 1;
  attachments = 2;
}

abbrev store_calls : List StoreCall
store_calls =
    detach session_key 2
    ∷ upsert other_key none "aes-gcm" 100_000 (some (6 ∷ []))
    ∷ upsert session_key none "aes-gcm" 100_001 none
    ∷ confirm session_key (9 ∷ []) 100_002
    ∷ []

one_departs : departures session_key store_calls < 2
unfolding departures
one_departs = omega arith

store_run-Holds_example :
    Holds
      (4 ∷ [])
      (5 ∷ [])
      "aes-gcm"
      session_key
      (2 - departures session_key store_calls)
      (store_run store_calls ((session_key, session) ∷ []))
store_run-Holds_example =
    store_run-Holds (4 ∷ []) (5 ∷ []) "aes-gcm" session_key 2 store_calls
      ((session_key, session) ∷ []) one_departs
      (record {
        session = session;
        stored = unfold lookup in refl;
        good = record { counted = omega arith; rooted = refl; named = refl; confirmed_key = refl };
      })

store_run_bounded_example :
    length (store_run store_calls ((session_key, session) ∷ [])) ≤ max_stored_sessions
store_run_bounded_example =
    store_run_bounded store_calls ((session_key, session) ∷ []) (omega arith)

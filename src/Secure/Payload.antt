-- ===== src/Secure/Payload.antt =====
-- One encrypted payload: `encrypt_payload` with `maybe_rotate_epoch`, and `decrypt_payload`, of
-- cloudflare/wasm/src/secure.rs.
use intranet_penetration_clo.Common.{
  ℕ, ◌+◌, ◌-◌, ◌%◌, min, String, Bool, not, ◌&&◌, Option, none, some, ◌++◌, length, take, drop, ltb,
  leb, if◌then◌else◌,
}
use intranet_penetration_clo.Common.Result.{Result, ok, err}
use intranet_penetration_clo.Packet.{Bytes, aead_tail_size}
use intranet_penetration_clo.Secure.{
  Traffic, SecureError, sequence_exhausted, too_short, rotate_after_packets, rotate_after_ms,
  decrypt_fail_threshold,
}
use intranet_penetration_clo.Secure.Slots.{
  of_direction, put_direction, evict_old_rx_slots, precheck_replay, commit_replay,
}
use intranet_penetration_clo.Secure.Crypto.{
  Crypto, Sealed, seal, open_sealed, traffic_key, nonce_bytes, from_be,
}

unfoldable pub maybe_rotate_epoch : ℕ → Traffic → Traffic
maybe_rotate_epoch now t =
    let sent = min (t.send_packets_since_epoch + 1) 18_446_744_073_709_551_615 in
    if ltb sent rotate_after_packets && ltb (now - t.send_epoch_started_ms) rotate_after_ms
    then record t { send_packets_since_epoch = sent }
    else record t {
      send_epoch = (t.send_epoch + 1) % 4_294_967_296;
      send_epoch_started_ms = now;
      send_packets_since_epoch = 0;
    }

-- The sequence number of the next packet is taken, also if the packet is not sealed.
abbrev pub take_sequence : Bool → Traffic → Traffic
take_sequence direction t = record t {
  send_seq = put_direction direction (of_direction direction t.send_seq + 1) t.send_seq;
}

abbrev pub with_nonce : Bytes → Result SecureError Sealed → Result SecureError Bytes
with_nonce nonce (err e) = err e
with_nonce nonce (ok s) = ok (s.ciphertext ++ (s.tag ++ nonce))

-- The payload without its tail, and the tail's tag, epoch and sequence number.
abbrev pub text_of : Bytes → Bytes
text_of payload = take (length payload - aead_tail_size) payload

abbrev pub tag_of : Bytes → Bytes
tag_of payload = take 16 (drop (length payload - aead_tail_size) payload)

abbrev pub nonce_of : Bytes → Bytes
nonce_of payload = drop (length payload - aead_tail_size + 16) payload

abbrev pub epoch_of : Bytes → ℕ
epoch_of payload = from_be (take 4 (nonce_of payload)) 0

abbrev pub sequence_of : Bytes → ℕ
sequence_of payload = from_be (drop 4 (nonce_of payload)) 0

-- The count of failures in a row; the packet is dropped while they are few.
abbrev pub count_failure : SecureError → Traffic → Result SecureError (Option Bytes) × Traffic
count_failure e t =
    let count = min (t.decrypt_fail_count + 1) 4_294_967_295 in
    (
      if leb decrypt_fail_threshold count then err e else ok none,
      record t { decrypt_fail_count = count },
    )

abbrev pub kept_if : Bytes → Traffic × Bool → Result SecureError (Option Bytes) × Traffic
kept_if plaintext (t, accepted) = (ok (if accepted then some plaintext else none), t)

module _ (c : Crypto) where
  unfoldable pub encrypt_payload :
      String → Bool → Bytes → Bytes → ℕ → Traffic → Result SecureError Bytes × Traffic
  encrypt_payload algorithm direction root_key plaintext now t =
      let rotated = maybe_rotate_epoch now t in
      let epoch = rotated.send_epoch in
      let sequence = of_direction direction rotated.send_seq in
      if leb 18_446_744_073_709_551_615 sequence
      then (err sequence_exhausted, rotated)
      else (let nonce = nonce_bytes epoch sequence in
          (
            with_nonce nonce
                (seal c algorithm (traffic_key c root_key epoch direction) nonce plaintext),
            take_sequence direction rotated,
          ))

  -- A payload that has been opened, or not.
  abbrev pub take_opened :
      ℕ
      → ℕ
      → Bool
      → ℕ
      → Result SecureError Bytes
      → Traffic
      → Result SecureError (Option Bytes) × Traffic
  take_opened epoch sequence direction now (err e) t = count_failure e t
  take_opened epoch sequence direction now (ok plaintext) t =
      kept_if plaintext
        (commit_replay epoch sequence direction now (record t { decrypt_fail_count = 0 }))

  unfoldable pub decrypt_payload :
      String → Bool → Bytes → Bytes → ℕ → Traffic → Result SecureError (Option Bytes) × Traffic
  decrypt_payload algorithm direction root_key payload now t =
      if ltb (length payload) aead_tail_size
      then (err too_short, t)
      else (let epoch = epoch_of payload in
          let sequence = sequence_of payload in
          let kept = evict_old_rx_slots now t in
          if not (precheck_replay epoch sequence direction kept)
          then (ok none, kept)
          else take_opened epoch sequence direction now
              (open_sealed c algorithm (traffic_key c root_key epoch direction) (nonce_of payload)
                (text_of payload) (tag_of payload))
              kept)

-- ===== src/Secure/Sealing.antt =====
-- The nonces of the packets that a session seals.
pub mod Numbering
use intranet_penetration_clo.Common.{
  ℕ, ◌+◌, ◌-◌, ◌^◌, ◌<◌, ◌≤◌, ◌≡◌, ◌≢◌, refl, min, String, Bool, true, false, not, ◌&&◌, ◌||◌, List,
  [], ◌∷◌, ◌++◌, ltb, leb, eqb, length, arith, Bool-cases, inl, inr, All, ap, sym,
}
use intranet_penetration_clo.Common.Result.{Result, ok, err}
use intranet_penetration_clo.Packet.{Bytes, aead_tail_size}
use intranet_penetration_clo.Secure.{Traffic, SecureError, rotate_after_packets, rotate_after_ms}
use intranet_penetration_clo.Secure.Slots.{
  of_direction, put_direction, evict_old_rx_slots, precheck_replay, commit_replay,
}
use intranet_penetration_clo.Secure.Crypto.{
  Crypto, Sealed, nonce_bytes, seal, traffic_key, open_sealed,
}
use intranet_penetration_clo.Secure.Crypto.Nonces.{
  nonce_id, nonce_id-nonce_bytes, length-nonce_bytes, drop_front,
}
use intranet_penetration_clo.Secure.Payload.{
  maybe_rotate_epoch, encrypt_payload, decrypt_payload, take_opened, kept_if, take_sequence,
  with_nonce, count_failure, epoch_of, sequence_of, nonce_of, text_of, tag_of,
}
use intranet_penetration_clo.Secure.Sessions.{synced_traffic, sync_epoch}
use intranet_penetration_clo.Secure.Peer.{server_algorithm}
use intranet_penetration_clo.Secure.Runs.{
  Event, sent, received, synced, send, receive, nonces, has_epochs, with_nonce_of, tail_of,
}
use intranet_penetration_clo.Secure.Sealing.Numbering.{
  is_since, Since, Since-weaken, AllDifferent, later_differ, position, rotate_position, Keeps,
  commit-Keeps, count-Keeps, kept-Keeps, Numbered, tail_of-sealed, of-put_direction, Keeps-Numbered,
  sync_epoch_ge, Seals, Seals-Numbered,
}

module _ (c : Crypto) (algorithm : String) (inbound : Bool) (root_key : Bytes) where
  take-Keeps :
      (epoch sequence now : ℕ) (r : Result SecureError Bytes) (t : Traffic)
      → Keeps t (take_opened c epoch sequence inbound now r t).1
  take-Keeps epoch sequence now (err e) t = count-Keeps e t
  take-Keeps epoch sequence now (ok plaintext) t =
      let t' : Traffic = record t { decrypt_fail_count = 0 } in
      kept-Keeps t plaintext (commit_replay epoch sequence inbound now t')
        (commit-Keeps epoch sequence inbound now t')

  receive-Keeps :
      (now : ℕ) (bytes : Bytes) (t : Traffic)
      → Keeps t (receive c algorithm inbound root_key now bytes t).1
  unfolding decrypt_payload evict_old_rx_slots
  receive-Keeps now bytes t =
      let kept = evict_old_rx_slots now t in
      elim (Bool-cases (ltb (length bytes) aead_tail_size)) [
        | inl short ↦ rw short (refl, refl)
        | inr long ↦
            elim (Bool-cases (precheck_replay (epoch_of bytes) (sequence_of bytes) inbound kept)) [
              | inl good ↦
                  rw (long, good)
                    (take-Keeps (epoch_of bytes) (sequence_of bytes) now
                      (open_sealed c algorithm (traffic_key c root_key (epoch_of bytes) inbound)
                        (nonce_of bytes) (text_of bytes) (tag_of bytes))
                      kept)
              | inr bad ↦ rw (long, bad) (refl, refl)
            ]
      ]

  sealed-Seals :
      (t t' : Traffic) (epoch sequence : ℕ) (r : Result SecureError Sealed)
      → epoch < 2 ^ 32
      → sequence < 2 ^ 64
      → t.send_epoch ≤ epoch
      → t'.send_epoch ≡ epoch
      → (position inbound t).1 ≡ sequence
      → (position inbound t').1 ≡ sequence + 1
      → Seals inbound t (with_nonce (nonce_bytes epoch sequence) r) t'
  unfolding Seals
  sealed-Seals t t' epoch sequence (err e) he hs le same now_at next = (omega arith, omega arith)
  sealed-Seals t t' epoch sequence (ok s) he hs le same now_at next = (
    omega arith,
    (
      rw (tail_of-sealed s.ciphertext s.tag epoch sequence, same, now_at)
          (nonce_id-nonce_bytes epoch sequence he hs),
      omega arith,
    ),
  )

  send-Seals :
      (now : ℕ) (bytes : Bytes) (t : Traffic)
      → t.send_epoch < 4_294_967_295
      → let r = send c algorithm inbound root_key now bytes t in Seals inbound t r.0 r.1
  unfolding encrypt_payload
  send-Seals now bytes t h =
      let rotated = maybe_rotate_epoch now t in
      let sequence = of_direction (not inbound) rotated.send_seq in
      let (seqs, le, bound) = rotate_position inbound now t h in
      let same : (position inbound t).1 ≡ sequence = ap (of_direction (not inbound)) (sym seqs) in
      elim (Bool-cases (leb 18_446_744_073_709_551_615 sequence)) [
        | inl full ↦ rw full (unfold Seals in (le, omega (arith, same)))
        | inr free ↦ rw free (
            sealed-Seals t (take_sequence (not inbound) rotated) rotated.send_epoch sequence
              (seal c server_algorithm (traffic_key c root_key rotated.send_epoch (not inbound))
                (nonce_bytes rotated.send_epoch sequence) bytes)
              bound (ground (arith, free)) le refl same
              (of-put_direction (not inbound) (sequence + 1) rotated.send_seq))
      ]

  synced_Numbered :
      (now : ℕ) (t : Traffic) (ns : List Bytes)
      → sync_epoch t < 4_294_967_295
      → Numbered inbound (synced_traffic now t) ns
      → Numbered inbound t ns
  synced_Numbered now t ns h (since, d) =
      let newer : t.send_epoch < (synced_traffic now t).send_epoch =
        let le = sync_epoch_ge t in omega (arith, le, h) in
      (
        Since-weaken t.send_epoch (position inbound t).1 (synced_traffic now t).send_epoch
            (position inbound (synced_traffic now t)).1 ns (ground arith) since,
        d,
      )

  nonces-Numbered :
      (t : Traffic) (events : List Event)
      → has_epochs c algorithm inbound root_key t events ≡ true
      → Numbered inbound t (nonces c algorithm inbound root_key t events)
  unfolding nonces has_epochs Since
  nonces-Numbered t [] h = (tt, tt)
  nonces-Numbered t (sent now bytes ∷ events) h =
      let r = send c algorithm inbound root_key now bytes t in
      Seals-Numbered inbound t r.1 r.0 (nonces c algorithm inbound root_key r.1 events)
        (send-Seals now bytes t (ground (arith, h)))
        (nonces-Numbered r.1 events (ground (arith, h)))
  nonces-Numbered t (received now bytes ∷ events) h =
      let t' = (receive c algorithm inbound root_key now bytes t).1 in
      Keeps-Numbered inbound t t' (nonces c algorithm inbound root_key t' events)
        (receive-Keeps now bytes t) (nonces-Numbered t' events h)
  nonces-Numbered t (synced now ∷ events) h =
      synced_Numbered now t (nonces c algorithm inbound root_key (synced_traffic now t) events)
        (ground (arith, h)) (nonces-Numbered (synced_traffic now t) events (ground (arith, h)))

  -- No nonce twice: over every run of a session, of packets sent and received and of Syncs, in which no
  -- epoch is the last of 32 bits when the next one may begin, the nonces of the packets that are sealed
  -- for the client are all different.
  pub nonces-AllDifferent :
      (t : Traffic) (events : List Event)
      → has_epochs c algorithm inbound root_key t events ≡ true
      → AllDifferent (nonces c algorithm inbound root_key t events)
  nonces-AllDifferent t events h = (nonces-Numbered t events h).1

-- ===== src/Secure/Guard.antt =====
-- A session's traffic and the history of the packets that it has opened, one packet at a time.
use intranet_penetration_clo.Common.{
  ℕ, ◌+◌, ◌-◌, ◌^◌, min, ◌<◌, ◌≡◌, refl, String, Bool, true, false, not, ◌&&◌, Option, List, [],
  ltb, leb, length, arith, Bool-cases, inl, inr,
}
use intranet_penetration_clo.Common.Result.{Result, ok, err}
use intranet_penetration_clo.Packet.{Bytes, aead_tail_size}
use intranet_penetration_clo.Secure.{
  Traffic, SecureError, SlotPair, rotate_after_packets, rotate_after_ms,
}
use intranet_penetration_clo.Secure.Slots.{
  of_direction, is_idle, evict_old_rx_slots, commit_slots, commit_replay, precheck_replay,
  put_slots,
}
use intranet_penetration_clo.Secure.Slots.History.{PacketId, has_id, Remembers, Recorded, extended}
use intranet_penetration_clo.Secure.Slots.Commit.{commit_slots-Recorded, evict_pair-Remembers}
use intranet_penetration_clo.Secure.Crypto.{Crypto, open_sealed, traffic_key}
use intranet_penetration_clo.Secure.Payload.{
  encrypt_payload, decrypt_payload, take_opened, kept_if, count_failure, nonce_of, text_of, tag_of,
  epoch_of, sequence_of, maybe_rotate_epoch,
}
use intranet_penetration_clo.Secure.Sessions.{new_traffic}
use intranet_penetration_clo.Secure.Runs.{is_opened, send, receive}

-- Outside the grace time of a Sync, the receive slots stand for what has been opened.
pub record IsGuarded (inbound : Bool) (t : Traffic) (seen : List PacketId) : Type 0 where
  pub settled : t.sync_rx_grace.valid ≡ false
  pub slots : Remembers (of_direction inbound t.rx_slots) seen

pub new_traffic-IsGuarded : (inbound : Bool) (now : ℕ) → IsGuarded inbound (new_traffic now) []
new_traffic-IsGuarded false now = record { settled = refl; slots = inl (refl, (refl, refl)) }
new_traffic-IsGuarded true now = record { settled = refl; slots = inl (refl, (refl, refl)) }

evict-IsGuarded :
    (inbound : Bool) (now : ℕ) (t : Traffic) (seen : List PacketId)
    → is_idle now (of_direction inbound t.rx_slots).slot0 ≡ false
    → IsGuarded inbound t seen
    → IsGuarded inbound (evict_old_rx_slots now t) seen
unfolding evict_old_rx_slots
evict-IsGuarded false now t seen busy g = record {
  settled = ground (arith, g.settled);
  slots = evict_pair-Remembers now t.rx_slots.0 seen busy g.slots;
}
evict-IsGuarded true now t seen busy g = record {
  settled = ground (arith, g.settled);
  slots = evict_pair-Remembers now t.rx_slots.1 seen busy g.slots;
}

-- What one received packet does to the history: it is opened only if it is new.
abbrev pub Opens : Bool → PacketId → List PacketId → Bool × Traffic → Type 0
Opens inbound a seen r =
    ((r.0 && has_id a seen) ≡ false) × IsGuarded inbound r.1 (extended r.0 a seen)

pub commit_settled :
    (inbound : Bool) (epoch sequence now : ℕ) (t : Traffic)
    → t.sync_rx_grace.valid ≡ false
    → commit_replay epoch sequence inbound now t
      ≡ put_slots inbound (commit_slots epoch sequence now (of_direction inbound t.rx_slots)) t
unfolding commit_replay
commit_settled inbound epoch sequence now t settled = ground (arith, settled)

put-Opens :
    (inbound : Bool) (a : PacketId) (seen : List PacketId) (t : Traffic) (r : SlotPair × Bool)
    → t.sync_rx_grace.valid ≡ false
    → Recorded a seen r
    → Opens inbound a seen ((put_slots inbound r t).1, (put_slots inbound r t).0)
put-Opens false a seen t (p, accepted) settled (new, slots) =
    (new, record { settled = settled; slots = slots })
put-Opens true a seen t (p, accepted) settled (new, slots) =
    (new, record { settled = settled; slots = slots })

commit_replay-Opens :
    (inbound : Bool) (epoch sequence now : ℕ) (t : Traffic) (seen : List PacketId)
    → IsGuarded inbound t seen
    → sequence < 2 ^ 32
    → Opens inbound
        (epoch, sequence)
        seen
        (
          (commit_replay epoch sequence inbound now t).1,
          (commit_replay epoch sequence inbound now t).0,
        )
commit_replay-Opens inbound epoch sequence now t seen g h =
    let slots = of_direction inbound t.rx_slots in
    rw (commit_settled inbound epoch sequence now t g.settled) (
      put-Opens inbound (epoch, sequence) seen t (commit_slots epoch sequence now slots) g.settled
        (commit_slots-Recorded epoch sequence now slots seen g.slots h))

abbrev pub outcome : Result SecureError (Option Bytes) × Traffic → Bool × Traffic
outcome (result, t) = (is_opened result, t)

kept-Opens :
    (inbound : Bool) (a : PacketId) (seen : List PacketId) (plaintext : Bytes) (r : Traffic × Bool)
    → Opens inbound a seen (r.1, r.0)
    → Opens inbound a seen (outcome (kept_if plaintext r))
kept-Opens inbound a seen plaintext (t, true) o = o
kept-Opens inbound a seen plaintext (t, false) o = o

closed-Opens :
    (inbound : Bool) (a : PacketId) (seen : List PacketId) (b : Bool) (t : Traffic)
    → b ≡ false
    → IsGuarded inbound t seen
    → Opens inbound a seen (b, t)
closed-Opens inbound a seen true t h g = absurd (ground (arith, h))
closed-Opens inbound a seen false t h g = (refl, g)

failure-Opens :
    (inbound : Bool) (a : PacketId) (seen : List PacketId) (e : SecureError) (t : Traffic)
    → IsGuarded inbound t seen
    → Opens inbound a seen (outcome (count_failure e t))
failure-Opens inbound a seen e t g =
    closed-Opens inbound a seen (is_opened (count_failure e t).0) (count_failure e t).1
      (ground arith) (record { settled = g.settled; slots = g.slots })

rotate-IsGuarded :
    (inbound : Bool) (now : ℕ) (t : Traffic) (seen : List PacketId)
    → IsGuarded inbound t seen
    → IsGuarded inbound (maybe_rotate_epoch now t) seen
unfolding maybe_rotate_epoch
rotate-IsGuarded inbound now t seen g =
    let sent = min (t.send_packets_since_epoch + 1) 18_446_744_073_709_551_615 in
    elim (Bool-cases
      (ltb sent rotate_after_packets && ltb (now - t.send_epoch_started_ms) rotate_after_ms)) [
        | inl stay ↦ rw stay (record { settled = g.settled; slots = g.slots })
        | inr turn ↦ rw turn (record { settled = g.settled; slots = g.slots })
      ]

module _ (c : Crypto) (algorithm : String) (inbound : Bool) (root_key : Bytes) where
  take_opened-Opens :
      (epoch sequence now : ℕ) (t : Traffic) (seen : List PacketId) (r : Result SecureError Bytes)
      → IsGuarded inbound t seen
      → sequence < 2 ^ 32
      → Opens inbound
          (epoch, sequence)
          seen
          (outcome (take_opened c epoch sequence inbound now r t))
  take_opened-Opens epoch sequence now t seen (err e) g h =
      failure-Opens inbound (epoch, sequence) seen e t g
  take_opened-Opens epoch sequence now t seen (ok plaintext) g h =
      let t' : Traffic = record t { decrypt_fail_count = 0 } in
      kept-Opens inbound (epoch, sequence) seen plaintext
        (commit_replay epoch sequence inbound now t')
        (commit_replay-Opens inbound epoch sequence now t' seen
          (record { settled = g.settled; slots = g.slots }) h)

  -- A received packet is opened only if its epoch and sequence number are new.
  pub receive-Opens :
      (now : ℕ) (bytes : Bytes) (t : Traffic) (seen : List PacketId)
      → IsGuarded inbound t seen
      → is_idle now (of_direction inbound t.rx_slots).slot0 ≡ false
      → sequence_of bytes < 2 ^ 32
      → Opens inbound
          (epoch_of bytes, sequence_of bytes)
          seen
          (outcome (receive c algorithm inbound root_key now bytes t))
  unfolding decrypt_payload
  receive-Opens now bytes t seen g busy h =
      let a : PacketId = (epoch_of bytes, sequence_of bytes) in
      let kept = evict_old_rx_slots now t in
      let guarded = evict-IsGuarded inbound now t seen busy g in
      elim (Bool-cases (ltb (length bytes) aead_tail_size)) [
        | inl short ↦ rw short (refl, g)
        | inr long ↦ elim (Bool-cases (precheck_replay a.0 a.1 inbound kept)) [
          | inl good ↦
              rw (long, good)
                (take_opened-Opens a.0 a.1 now kept seen
                  (open_sealed c algorithm (traffic_key c root_key a.0 inbound) (nonce_of bytes)
                    (text_of bytes) (tag_of bytes))
                  guarded h)
          | inr bad ↦ rw (long, bad) (refl, guarded)
        ]
      ]

  pub send-IsGuarded :
      (now : ℕ) (bytes : Bytes) (t : Traffic) (seen : List PacketId)
      → IsGuarded inbound t seen
      → IsGuarded inbound (send c algorithm inbound root_key now bytes t).1 seen
  unfolding encrypt_payload
  send-IsGuarded now bytes t seen g =
      elim (Bool-cases (
        leb 18_446_744_073_709_551_615
          (of_direction (not inbound) (maybe_rotate_epoch now t).send_seq))) [
            | inl full ↦ rw full (rotate-IsGuarded inbound now t seen g)
            | inr free ↦ rw free (
                let r = rotate-IsGuarded inbound now t seen g in
                record { settled = r.settled; slots = r.slots })
          ]

-- ===== src/Secure/Replay.antt =====
-- Replay protection over a session's run, and where it ends: when its newest epoch has been idle.
use intranet_penetration_clo.Common.{
  ℕ, ◌≡◌, refl, String, Bool, true, false, not, ◌&&◌, Option, none, some, List, [], ◌∷◌, ltb,
  if◌then◌else◌, length, arith, Bool-cases, inl, inr,
}
use intranet_penetration_clo.Common.Result.{Result, ok, err}
use intranet_penetration_clo.Packet.{Bytes, aead_tail_size}
use intranet_penetration_clo.Secure.{Traffic, SecureError, too_short}
use intranet_penetration_clo.Secure.Slots.{
  of_direction, is_idle, evict_old_rx_slots, commit_replay, precheck_replay, clear_slot,
  precheck_slots,
}
use intranet_penetration_clo.Secure.Slots.History.{PacketId, same_id, has_id, extended}
use intranet_penetration_clo.Secure.Slots.Commit.{commit_free}
use intranet_penetration_clo.Secure.Crypto.{Crypto, open_sealed, traffic_key}
use intranet_penetration_clo.Secure.Payload.{
  decrypt_payload, take_opened, nonce_of, text_of, tag_of, epoch_of, sequence_of,
}
use intranet_penetration_clo.Secure.Sessions.{new_traffic}
use intranet_penetration_clo.Secure.Runs.{
  Event, sent, received, synced, send, receive, opened, is_steady,
}
use intranet_penetration_clo.Window.{empty}
use intranet_penetration_clo.Window.History.{accept_first}
use intranet_penetration_clo.Secure.Guard.{
  IsGuarded, new_traffic-IsGuarded, outcome, receive-Opens, send-IsGuarded, commit_settled,
}

has_id-extended :
    (b : Bool) (a x : PacketId) (seen later : List PacketId)
    → (b && has_id x seen) ≡ false
    → has_id a seen ≡ true
    → has_id a later ≡ false
    → has_id a (extended b x later) ≡ false
has_id-extended b (e, s) (e', s') seen later new known rest =
    elim (Bool-cases (same_id (e, s) (e', s'))) [
      | inl same ↦
          let p : e ≡ e' = ground (arith, same) in
          let q : s ≡ s' = ground (arith, same) in
          let found : has_id (e', s') seen ≡ true = rw⁻¹ (p, q) known in
          ground (arith, new, found, rest)
      | inr other ↦ ground (arith, other, rest)
    ]

extended_has :
    (b : Bool) (a x : PacketId) (seen : List PacketId)
    → has_id a seen ≡ true
    → has_id a (extended b x seen) ≡ true
extended_has b a x seen known = ground (arith, known)

-- No packet twice.
abbrev pub Distinct : List PacketId → Type 0
Distinct [] = Unit
Distinct (x ∷ xs) = (has_id x xs ≡ false) × Distinct xs

extended-Distinct :
    (b : Bool) (x : PacketId) (xs : List PacketId)
    → (b ≡ true → has_id x xs ≡ false)
    → Distinct xs
    → Distinct (extended b x xs)
extended-Distinct true x xs new d = (new refl, d)
extended-Distinct false x xs new d = d

extended_self :
    (b : Bool) (x : PacketId) (seen : List PacketId)
    → b ≡ true
    → has_id x (extended b x seen) ≡ true
extended_self b x seen h = ground (arith, h)

-- A packet whose text comes out has passed the length's test and the first check.
reaches_end :
    (short good : Bool) (t kept : Traffic) (r : Result SecureError (Option Bytes) × Traffic)
    (plaintext : Bytes)
    → (if short then (err too_short, t) else if not good then (ok none, kept) else r).0
      ≡ ok (some plaintext)
    → (short ≡ false) × (r.0 ≡ ok (some plaintext))
reaches_end true good t kept r plaintext h = absurd (ground (arith, h))
reaches_end false true t kept r plaintext h = (refl, h)
reaches_end false false t kept r plaintext h = absurd (ground (arith, h))

module _ (c : Crypto) (algorithm : String) (inbound : Bool) (root_key : Bytes) where
  opened_once :
      (t : Traffic) (seen : List PacketId) (events : List Event) (a : PacketId)
      → IsGuarded inbound t seen
      → is_steady c algorithm inbound root_key t events ≡ true
      → has_id a seen ≡ true
      → has_id a (opened c algorithm inbound root_key t events) ≡ false
  unfolding opened is_steady
  opened_once t seen [] a g steady known = refl
  opened_once t seen (sent now bytes ∷ events) a g steady known =
      opened_once (send c algorithm inbound root_key now bytes t).1 seen events a
        (send-IsGuarded c algorithm inbound root_key now bytes t seen g) steady known
  opened_once t seen (synced now ∷ events) a g steady known = absurd (ground (arith, steady))
  opened_once t seen (received now bytes ∷ events) a g steady known =
      let (new, guarded) =
        receive-Opens c algorithm inbound root_key now bytes t seen g (ground (arith, steady))
          (ground (arith, steady)) in
      let r = outcome (receive c algorithm inbound root_key now bytes t) in
      let x : PacketId = (epoch_of bytes, sequence_of bytes) in
      has_id-extended r.0 a x seen (opened c algorithm inbound root_key r.1 events) new known (
        opened_once r.1 (extended r.0 x seen) events a guarded (ground (arith, steady))
          (extended_has r.0 a x seen known))

  guarded-Distinct :
      (t : Traffic) (seen : List PacketId) (events : List Event)
      → IsGuarded inbound t seen
      → is_steady c algorithm inbound root_key t events ≡ true
      → Distinct (opened c algorithm inbound root_key t events)
  unfolding opened is_steady
  guarded-Distinct t seen [] g steady = tt
  guarded-Distinct t seen (sent now bytes ∷ events) g steady =
      guarded-Distinct (send c algorithm inbound root_key now bytes t).1 seen events
        (send-IsGuarded c algorithm inbound root_key now bytes t seen g) steady
  guarded-Distinct t seen (synced now ∷ events) g steady = absurd (ground (arith, steady))
  guarded-Distinct t seen (received now bytes ∷ events) g steady =
      let (new, guarded) =
        receive-Opens c algorithm inbound root_key now bytes t seen g (ground (arith, steady))
          (ground (arith, steady)) in
      let r = outcome (receive c algorithm inbound root_key now bytes t) in
      let x : PacketId = (epoch_of bytes, sequence_of bytes) in
      let still : is_steady c algorithm inbound root_key r.1 events ≡ true =
        ground (arith, steady) in
      extended-Distinct r.0 x (opened c algorithm inbound root_key r.1 events)
        (λ done.
          opened_once r.1 (extended r.0 x seen) events x guarded still
            (extended_self r.0 x seen done))
        (guarded-Distinct r.1 (extended r.0 x seen) events guarded still)

  -- No replay: over every run of packets sent and received from a new session on, in which each packet
  -- arrives with a sequence number below 2 ^ 32 and while the newest epoch is not idle, no epoch and
  -- sequence number is opened twice.
  pub opened-Distinct :
      (now : ℕ) (events : List Event)
      → is_steady c algorithm inbound root_key (new_traffic now) events ≡ true
      → Distinct (opened c algorithm inbound root_key (new_traffic now) events)
  opened-Distinct now events steady =
      guarded-Distinct (new_traffic now) [] events (new_traffic-IsGuarded inbound now) steady

  cleared :
      (now : ℕ) (t : Traffic)
      → t.sync_rx_grace.valid ≡ false
      → is_idle now (of_direction inbound t.rx_slots).slot0 ≡ true
      → ((evict_old_rx_slots now t).sync_rx_grace.valid ≡ false)
        × ((of_direction inbound (evict_old_rx_slots now t).rx_slots).slot0.valid ≡ false)
  unfolding evict_old_rx_slots clear_slot
  cleared now t settled idle = ground (arith, settled, idle)

  free_accepts :
      (epoch sequence now : ℕ) (t : Traffic)
      → t.sync_rx_grace.valid ≡ false
      → (of_direction inbound t.rx_slots).slot0.valid ≡ false
      → (precheck_replay epoch sequence inbound t ≡ true)
        × ((commit_replay epoch sequence inbound now t).1 ≡ true)
  unfolding precheck_replay precheck_slots
  free_accepts epoch sequence now t settled free = (
    ground (arith, settled, free),
    rw
        (
          commit_settled inbound epoch sequence now t settled,
          commit_free epoch sequence now (of_direction inbound t.rx_slots) free,
        )
        (ground (arith, accept_first empty sequence refl)),
  )

  opening : Bytes → Result SecureError Bytes
  opening bytes =
      open_sealed c algorithm (traffic_key c root_key (epoch_of bytes) inbound) (nonce_of bytes)
        (text_of bytes) (tag_of bytes)

  -- What was opened is authentic.
  taken-authentic :
      (epoch sequence now : ℕ) (t : Traffic) (r : Result SecureError Bytes) (plaintext : Bytes)
      → (take_opened c epoch sequence inbound now r t).0 ≡ ok (some plaintext)
      → r ≡ ok plaintext
  taken-authentic epoch sequence now t (err e) plaintext h = absurd (ground (arith, h))
  taken-authentic epoch sequence now t (ok text) plaintext h = ground (arith, h)

  opened-authentic :
      (now : ℕ) (bytes : Bytes) (t : Traffic) (plaintext : Bytes)
      → (receive c algorithm inbound root_key now bytes t).0 ≡ ok (some plaintext)
      → (ltb (length bytes) aead_tail_size ≡ false) × (opening bytes ≡ ok plaintext)
  unfolding decrypt_payload opening
  opened-authentic now bytes t plaintext h =
      let kept = evict_old_rx_slots now t in
      let r = take_opened c (epoch_of bytes) (sequence_of bytes) inbound now (opening bytes) kept in
      let (long, took) =
        reaches_end (ltb (length bytes) aead_tail_size)
          (precheck_replay (epoch_of bytes) (sequence_of bytes) inbound kept) t kept r plaintext
          h in
      (
        long,
        taken-authentic (epoch_of bytes) (sequence_of bytes) now kept (opening bytes) plaintext
            took,
      )

  -- The limit: once the newest epoch has been idle for more than 30 seconds, and outside the grace time
  -- of a Sync, every packet that was ever opened under the root key is opened again.
  pub receive_replays :
      (earlier now : ℕ) (bytes : Bytes) (before t : Traffic) (plaintext : Bytes)
      → (receive c algorithm inbound root_key earlier bytes before).0 ≡ ok (some plaintext)
      → t.sync_rx_grace.valid ≡ false
      → is_idle now (of_direction inbound t.rx_slots).slot0 ≡ true
      → (receive c algorithm inbound root_key now bytes t).0 ≡ ok (some plaintext)
  unfolding decrypt_payload opening
  receive_replays earlier now bytes before t plaintext h settled idle =
      let (long, authentic) = opened-authentic earlier bytes before plaintext h in
      let (settled', free) = cleared now t settled idle in
      let kept = evict_old_rx_slots now t in
      let (good, _) = free_accepts (epoch_of bytes) (sequence_of bytes) now kept settled' free in
      let t' : Traffic = record kept { decrypt_fail_count = 0 } in
      let (_, accepted) = free_accepts (epoch_of bytes) (sequence_of bytes) now t' settled' free in
      rw (long, good, authentic, accepted) refl

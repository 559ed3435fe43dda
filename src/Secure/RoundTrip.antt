-- ===== src/Secure/RoundTrip.antt =====
-- Encryption and decryption of a payload under the same algorithm, root key and direction.
use intranet_penetration_clo.Common.{
  ℕ, ◌+◌, ◌-◌, ◌^◌, ◌<◌, ◌≡◌, refl, String, Bool, true, false, Option, none, some, ◌++◌, ltb, leb,
  if◌then◌else◌, length, length-append, arith, ap, sym,
}
use intranet_penetration_clo.Common.Result.{Result, ok, err, ok_or, ◌>>=◌}
use intranet_penetration_clo.Packet.{Bytes, aead_tail_size}
use intranet_penetration_clo.Window.{empty}
use intranet_penetration_clo.Window.History.{accept_first}
use intranet_penetration_clo.Window.Replay.{can_accept-accept}
use intranet_penetration_clo.Secure.{
  Traffic, SecureError, seal_failed, open_failed, sequence_exhausted, SlotPair, Cipher,
}
use intranet_penetration_clo.Secure.Slots.{
  of_direction, evict_old_rx_slots, precheck_slots, precheck_replay, commit_slots, commit_replay,
}
use intranet_penetration_clo.Secure.Crypto.{
  Crypto, Sealed, nonce_bytes, seal, open_sealed, traffic_key, normalized_algorithm, cipher_key,
}
use intranet_penetration_clo.Secure.Crypto.Nonces.{
  nonce_id-nonce_bytes, length-nonce_bytes, drop-append, take-append, drop-append_more,
}
use intranet_penetration_clo.Secure.Payload.{
  maybe_rotate_epoch, encrypt_payload, decrypt_payload, take_sequence, with_nonce, epoch_of,
  sequence_of, nonce_of, text_of, tag_of,
}

-- What the ciphers promise: opening undoes sealing, and tags have 16 bytes.
pub record IsAead (c : Crypto) : Type 0 where
  pub opens :
      (cipher : Cipher) (key nonce text : Bytes) (s : Sealed)
      → c.seal_with cipher key nonce text ≡ some s
      → c.open_with cipher key nonce s.ciphertext s.tag ≡ some text
  pub tags :
      (cipher : Cipher) (key nonce text : Bytes) (s : Sealed)
      → c.seal_with cipher key nonce text ≡ some s
      → length s.tag ≡ 16

precheck-commit_slots :
    (send_epoch epoch sequence now : ℕ) (p : SlotPair)
    → precheck_slots send_epoch epoch sequence p ≡ true
    → (commit_slots epoch sequence now p).1 ≡ true
unfolding precheck_slots commit_slots
precheck-commit_slots send_epoch epoch sequence now p h = ground (
  arith,
  h,
  can_accept-accept p.slot0.window sequence,
  can_accept-accept p.slot1.window sequence,
  accept_first empty sequence refl,
)

-- What the first check passes the replay window accepts.
pub precheck-commit_replay :
    (epoch sequence now : ℕ) (direction : Bool) (t : Traffic)
    → precheck_replay epoch sequence direction t ≡ true
    → (commit_replay epoch sequence direction now t).1 ≡ true
unfolding precheck_replay commit_replay
precheck-commit_replay epoch sequence now direction t h =
    let grace = of_direction direction t.sync_rx_grace.slots in
    ground (
      arith,
      h,
      can_accept-accept grace.slot0.window sequence,
      can_accept-accept grace.slot1.window sequence,
      precheck-commit_slots t.send_epoch epoch sequence now (of_direction direction t.rx_slots),
    )

payload : Bytes → Bytes → ℕ → ℕ → Bytes
payload ciphertext tag epoch sequence = ciphertext ++ (tag ++ nonce_bytes epoch sequence)

-- A sealed payload falls apart into what it was made of.
module _ (ciphertext tag : Bytes) (epoch sequence : ℕ) (h : length tag ≡ 16) where
  abbrev whole : Bytes
  whole = payload ciphertext tag epoch sequence

  length-payload : length whole ≡ length ciphertext + 28
  unfolding payload
  length-payload = omega (
    arith,
    length-append ciphertext (tag ++ nonce_bytes epoch sequence),
    length-append tag (nonce_bytes epoch sequence),
    length-nonce_bytes epoch sequence,
    h,
  )

  text_at : length whole - aead_tail_size ≡ length ciphertext
  text_at = omega (arith, length-payload)

  text_of-payload : text_of whole ≡ ciphertext
  unfolding payload
  text_of-payload = rw text_at (take-append ciphertext (tag ++ nonce_bytes epoch sequence))

  tag_of-payload : tag_of whole ≡ tag
  unfolding payload
  tag_of-payload =
      rw (text_at, drop-append ciphertext (tag ++ nonce_bytes epoch sequence), sym h)
        (take-append tag (nonce_bytes epoch sequence))

  nonce_of-payload : nonce_of whole ≡ nonce_bytes epoch sequence
  unfolding payload
  nonce_of-payload =
      rw (text_at, drop-append_more ciphertext (tag ++ nonce_bytes epoch sequence) 16, sym h)
        (drop-append tag (nonce_bytes epoch sequence))

  long_payload : ltb (length whole) aead_tail_size ≡ false
  long_payload = ground (arith, length-payload)

ok_or-some : {A : Type 0} (o : Option A) (e : SecureError) (a : A) → ok_or o e ≡ ok a → o ≡ some a
ok_or-some none e a h = absurd (ground (arith, h))
ok_or-some (some b) e a h = ground (arith, h)

precheck-fail_count :
    (epoch sequence : ℕ) (direction : Bool) (t : Traffic)
    → precheck_replay epoch sequence direction t ≡ true
    → precheck_replay epoch sequence direction (record t { decrypt_fail_count = 0 }) ≡ true
unfolding precheck_replay
precheck-fail_count epoch sequence direction t h = h

rotated_epoch :
    (now : ℕ) (t : Traffic) → t.send_epoch < 2 ^ 32 → (maybe_rotate_epoch now t).send_epoch < 2 ^ 32
unfolding maybe_rotate_epoch
rotated_epoch now t h = ground arith

with_nonce-ok :
    (epoch sequence : ℕ) (r : Result SecureError Sealed) (sealed : Bytes)
    → with_nonce (nonce_bytes epoch sequence) r ≡ ok sealed
    → (s : Sealed) × (r ≡ ok s) × (sealed ≡ payload s.ciphertext s.tag epoch sequence)
unfolding payload
with_nonce-ok epoch sequence (err e) sealed h = absurd (ground (arith, h))
with_nonce-ok epoch sequence (ok s) sealed h = (s, refl, ground (arith, h))

sealed_unless :
    (full : Bool) (t t' : Traffic) (r : Result SecureError Bytes) (sealed : Bytes)
    → (if◌then◌else◌ {A = Result SecureError Bytes × Traffic} full
        (err sequence_exhausted, t)
        (r, t')).0
      ≡ ok sealed
    → (full ≡ false) × (r ≡ ok sealed)
sealed_unless true t t' r sealed h = absurd (ground (arith, h))
sealed_unless false t t' r sealed h = (refl, h)

-- The sequence number of a packet that is sealed is not the last.
encrypted :
    (c : Crypto) (algorithm : String) (direction : Bool) (root_key text sealed : Bytes) (now : ℕ)
    (t : Traffic)
    → (encrypt_payload c algorithm direction root_key text now t).0 ≡ ok sealed
    → let rotated = maybe_rotate_epoch now t in
      let sequence = of_direction direction rotated.send_seq in
      let nonce = nonce_bytes rotated.send_epoch sequence in
      (sequence < 2 ^ 64)
      × (with_nonce nonce
            (seal c algorithm (traffic_key c root_key rotated.send_epoch direction) nonce text)
          ≡ ok sealed)
unfolding encrypt_payload
encrypted c algorithm direction root_key text sealed now t h =
    let rotated = maybe_rotate_epoch now t in
    let sequence = of_direction direction rotated.send_seq in
    let nonce = nonce_bytes rotated.send_epoch sequence in
    let (room, out) =
      sealed_unless (leb 18_446_744_073_709_551_615 sequence) rotated
        (take_sequence direction rotated)
        (with_nonce nonce
          (seal c algorithm (traffic_key c root_key rotated.send_epoch direction) nonce text))
        sealed h in
    (ground (arith, room), out)

module _ (c : Crypto) (aead : IsAead c) where
  sealed_by :
      (r : Result SecureError Cipher) (key nonce text : Bytes) (s : Sealed)
      → (r >>= λ cipher.
          ok_or (c.seal_with cipher (cipher_key c cipher key) nonce text) seal_failed)
        ≡ ok s
      → (length s.tag ≡ 16)
        × ((r >>= λ cipher.
              ok_or
                (c.open_with cipher (cipher_key c cipher key) nonce s.ciphertext s.tag)
                open_failed)
            ≡ ok text)
  sealed_by (err e) key nonce text s h = absurd (ground (arith, h))
  sealed_by (ok cipher) key nonce text s h =
      let sealed =
        ok_or-some (c.seal_with cipher (cipher_key c cipher key) nonce text) seal_failed s h in
      (
        aead.tags cipher (cipher_key c cipher key) nonce text s sealed,
        rw (aead.opens cipher (cipher_key c cipher key) nonce text s sealed) refl,
      )

  seal-opens :
      (algorithm : String) (key nonce text : Bytes) (s : Sealed)
      → seal c algorithm key nonce text ≡ ok s
      → (length s.tag ≡ 16) × (open_sealed c algorithm key nonce s.ciphertext s.tag ≡ ok text)
  unfolding seal open_sealed
  seal-opens algorithm key nonce text s h =
      sealed_by (normalized_algorithm c algorithm) key nonce text s h

  -- A payload that was made of a sealed text.
  receives :
      (algorithm : String) (direction : Bool) (root_key text : Bytes) (epoch sequence now : ℕ)
      (t : Traffic) (s : Sealed)
      → epoch < 2 ^ 32
      → sequence < 2 ^ 64
      → seal c algorithm (traffic_key c root_key epoch direction) (nonce_bytes epoch sequence) text
        ≡ ok s
      → precheck_replay epoch sequence direction (evict_old_rx_slots now t) ≡ true
      → (decrypt_payload c algorithm direction root_key
          (payload s.ciphertext s.tag epoch sequence)
          now
          t).0
        ≡ ok (some text)
  unfolding decrypt_payload
  receives algorithm direction root_key text epoch sequence now t s he hs sealed good =
      let nonce = nonce_bytes epoch sequence in
      let (tag16, opens) =
        seal-opens algorithm (traffic_key c root_key epoch direction) nonce text s sealed in
      let id = nonce_id-nonce_bytes epoch sequence he hs in
      let at_nonce = nonce_of-payload s.ciphertext s.tag epoch sequence tag16 in
      let kept : Traffic = record (evict_old_rx_slots now t) { decrypt_fail_count = 0 } in
      rw
        (
          long_payload s.ciphertext s.tag epoch sequence tag16,
          at_nonce,
          ap (λ p. p.0) id,
          ap (λ p. p.1) id,
          good,
          text_of-payload s.ciphertext s.tag epoch sequence tag16,
          tag_of-payload s.ciphertext s.tag epoch sequence tag16,
          opens,
        )
        (rw
          (precheck-commit_replay epoch sequence now direction kept
            (precheck-fail_count epoch sequence direction (evict_old_rx_slots now t) good))
          refl)

  -- The round trip: what `encrypt_payload` makes of a text, `decrypt_payload` under the same algorithm,
  -- direction and root key gives back, at every receiver whose replay check passes the packet, if the
  -- cipher opens what it seals, with tags of 16 bytes, and the sender's epoch fits its 32 bits.
  pub decrypt_payload-encrypt_payload :
      (algorithm : String) (direction : Bool) (root_key text sealed : Bytes) (sent_at now : ℕ)
      (sender receiver : Traffic)
      → sender.send_epoch < 2 ^ 32
      → (encrypt_payload c algorithm direction root_key text sent_at sender).0 ≡ ok sealed
      → precheck_replay
          (epoch_of sealed)
          (sequence_of sealed)
          direction
          (evict_old_rx_slots now receiver)
        ≡ true
      → (decrypt_payload c algorithm direction root_key sealed now receiver).0 ≡ ok (some text)
  decrypt_payload-encrypt_payload algorithm direction root_key text sealed sent_at now sender
        receiver he h good =
      let rotated = maybe_rotate_epoch sent_at sender in
      let sequence = of_direction direction rotated.send_seq in
      let nonce = nonce_bytes rotated.send_epoch sequence in
      let (fits, out) = encrypted c algorithm direction root_key text sealed sent_at sender h in
      let (s, from, is) =
        with_nonce-ok rotated.send_epoch sequence
          (seal c algorithm (traffic_key c root_key rotated.send_epoch direction) nonce text) sealed
          out in
      let id =
        nonce_id-nonce_bytes rotated.send_epoch sequence (rotated_epoch sent_at sender he) fits in
      let at_nonce : nonce_of sealed ≡ nonce = rw is (
        nonce_of-payload s.ciphertext s.tag rotated.send_epoch sequence
          (seal-opens algorithm (traffic_key c root_key rotated.send_epoch direction) nonce text s
            from).0) in
      let e : epoch_of sealed ≡ rotated.send_epoch = rw at_nonce (ap (λ p. p.0) id) in
      let n : sequence_of sealed ≡ sequence = rw at_nonce (ap (λ p. p.1) id) in
      rw is (
        receives algorithm direction root_key text rotated.send_epoch sequence now receiver s
          (rotated_epoch sent_at sender he) fits from (rw⁻¹ (e, n) good))

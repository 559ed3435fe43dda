-- ===== src/Secure/Sealing/Numbering.antt =====
-- Lists of nonces, and how a packet counts the numbering of a session on.
use intranet_penetration_clo.Common.{
  ℕ, ◌+◌, ◌-◌, ◌^◌, ◌<◌, ◌≤◌, ◌≡◌, ◌≢◌, refl, min, Bool, true, false, not, ◌&&◌, ◌||◌, List, [],
  ◌∷◌, ◌++◌, ltb, leb, eqb, arith, Bool-cases, inl, inr, All, ap,
}
use intranet_penetration_clo.Common.Result.{Result, ok, err}
use intranet_penetration_clo.Packet.{Bytes}
use intranet_penetration_clo.Secure.{Traffic, SecureError, rotate_after_packets, rotate_after_ms}
use intranet_penetration_clo.Secure.Slots.{of_direction, put_direction, commit_replay}
use intranet_penetration_clo.Secure.Crypto.{nonce_bytes}
use intranet_penetration_clo.Secure.Crypto.Nonces.{nonce_id, length-nonce_bytes, drop_front}
use intranet_penetration_clo.Secure.Payload.{maybe_rotate_epoch, kept_if, count_failure}
use intranet_penetration_clo.Secure.Sessions.{sync_epoch}
use intranet_penetration_clo.Secure.Runs.{with_nonce_of, tail_of}

-- A nonce of this epoch and sequence number or a later one.
abbrev pub is_since : ℕ → ℕ → Bytes → Bool
is_since epoch sequence nonce =
    let id = nonce_id nonce in ltb epoch id.0 || (eqb epoch id.0 && leb sequence id.1)

unfoldable pub Since : ℕ → ℕ → List Bytes → Type 0
Since epoch sequence ns = All (λ n. is_since epoch sequence n ≡ true) ns

pub Since-weaken :
    (e s e' s' : ℕ) (ns : List Bytes)
    → (ltb e e' || (eqb e e' && leb s s')) ≡ true
    → Since e' s' ns
    → Since e s ns
unfolding Since
Since-weaken e s e' s' [] h b = tt
Since-weaken e s e' s' (n ∷ ns) h b = (ground (arith, h, b.0), Since-weaken e s e' s' ns h b.1)

-- All different.
abbrev pub AllDifferent : List Bytes → Type 0
AllDifferent [] = Unit
AllDifferent (n ∷ ns) = All (λ m. n ≢ m) ns × AllDifferent ns

pub later_differ :
    (e s : ℕ) (n : Bytes) (ns : List Bytes)
    → nonce_id n ≡ (e, s)
    → Since e (s + 1) ns
    → All (λ m. n ≢ m) ns
unfolding Since
later_differ e s n [] h b = tt
later_differ e s n (m ∷ ns) h b =
    let e0 : (nonce_id n).0 ≡ e = ap (λ p. p.0) h in
    let s0 : (nonce_id n).1 ≡ s = ap (λ p. p.1) h in
    (
      λ same.
          (let e1 : (nonce_id m).0 ≡ e = rw⁻¹ same e0 in
            let s1 : (nonce_id m).1 ≡ s = rw⁻¹ same s0 in ground (arith, b.0, e1, s1)),
      later_differ e s n ns h b.1,
    )

-- Where the sending of a session stands.
abbrev pub position : Bool → Traffic → ℕ × ℕ
position inbound t = (t.send_epoch, of_direction (not inbound) t.send_seq)

pub rotate_position :
    (inbound : Bool) (now : ℕ) (t : Traffic)
    → t.send_epoch < 4_294_967_295
    → ((maybe_rotate_epoch now t).send_seq ≡ t.send_seq)
      × (t.send_epoch ≤ (maybe_rotate_epoch now t).send_epoch)
      × ((maybe_rotate_epoch now t).send_epoch < 2 ^ 32)
unfolding maybe_rotate_epoch
rotate_position inbound now t h =
    let sent = min (t.send_packets_since_epoch + 1) 18_446_744_073_709_551_615 in
    elim (Bool-cases
      (ltb sent rotate_after_packets && ltb (now - t.send_epoch_started_ms) rotate_after_ms)) [
        | inl stay ↦ rw stay (refl, omega arith, omega arith)
        | inr turn ↦ rw turn (refl, omega arith, omega arith)
      ]

-- The receive side leaves the sending alone.
abbrev pub Keeps : Traffic → Traffic → Type 0
Keeps t t' = (t'.send_epoch ≡ t.send_epoch) × (t'.send_seq ≡ t.send_seq)

pub commit-Keeps :
    (epoch sequence : ℕ) (direction : Bool) (now : ℕ) (t : Traffic)
    → Keeps t (commit_replay epoch sequence direction now t).0
unfolding commit_replay
commit-Keeps epoch sequence direction now t = ground arith

pub count-Keeps : (e : SecureError) (t : Traffic) → Keeps t (count_failure e t).1
count-Keeps e t = (refl, refl)

pub kept-Keeps :
    (t : Traffic) (plaintext : Bytes) (r : Traffic × Bool)
    → Keeps t r.0
    → Keeps t (kept_if plaintext r).1
kept-Keeps t plaintext (t', accepted) k = k

-- The nonces of a part of a run, after which the sending stands at `t`.
abbrev pub Numbered : Bool → Traffic → List Bytes → Type 0
Numbered inbound t ns =
    Since t.send_epoch (of_direction (not inbound) t.send_seq) ns × AllDifferent ns

pub tail_of-sealed :
    (ciphertext tag : Bytes) (epoch sequence : ℕ)
    → tail_of (ciphertext ++ (tag ++ nonce_bytes epoch sequence)) ≡ nonce_bytes epoch sequence
tail_of-sealed ciphertext tag epoch sequence =
    let nonce = nonce_bytes epoch sequence in
    rw⁻¹ (length-nonce_bytes epoch sequence) (drop_front ciphertext tag nonce)

pub of-put_direction :
    (d : Bool) (n : ℕ) (both : ℕ × ℕ) → of_direction d (put_direction d n both) ≡ n
of-put_direction false n both = refl
of-put_direction true n both = refl

pub Keeps-Numbered :
    (inbound : Bool) (t t' : Traffic) (ns : List Bytes)
    → Keeps t t'
    → Numbered inbound t' ns
    → Numbered inbound t ns
Keeps-Numbered inbound t t' ns (epochs, seqs) (since, d) =
    let same : (position inbound t').1 ≡ (position inbound t).1 =
      ap (of_direction (not inbound)) seqs in
    (
      Since-weaken t.send_epoch (position inbound t).1 t'.send_epoch (position inbound t').1 ns
          (ground (arith, epochs, same)) since,
      d,
    )

pub sync_epoch_ge : (t : Traffic) → t.send_epoch ≤ sync_epoch t
sync_epoch_ge t = ground arith

-- What sealing one packet does to the numbering.
unfoldable pub Seals : Bool → Traffic → Result SecureError Bytes → Traffic → Type 0
Seals inbound t (err e) t' =
    (t.send_epoch ≤ t'.send_epoch) × ((position inbound t).1 ≤ (position inbound t').1)
Seals inbound t (ok payload) t' =
    (t.send_epoch ≤ t'.send_epoch)
    × ((nonce_id (tail_of payload) ≡ (t'.send_epoch, (position inbound t).1))
        × ((position inbound t').1 ≡ (position inbound t).1 + 1))

pub Seals-Numbered :
    (inbound : Bool) (t t' : Traffic) (r : Result SecureError Bytes) (later : List Bytes)
    → Seals inbound t r t'
    → Numbered inbound t' later
    → Numbered inbound t (with_nonce_of r later)
unfolding Seals Since
Seals-Numbered inbound t t' (err e) later (le, on) (since, d) = (
  Since-weaken t.send_epoch (position inbound t).1 t'.send_epoch (position inbound t').1 later
      (ground arith) since,
  d,
)
Seals-Numbered inbound t t' (ok payload) later (le, (id, next)) (since, d) =
    let s = (position inbound t).1 in
    let e1 : (nonce_id (tail_of payload)).0 ≡ t'.send_epoch = ap (λ p. p.0) id in
    let e2 : (nonce_id (tail_of payload)).1 ≡ s = ap (λ p. p.1) id in
    (
      (
        ground (arith, e1, e2),
        Since-weaken t.send_epoch s t'.send_epoch (position inbound t').1 later (ground arith)
            since,
      ),
      (
        later_differ t'.send_epoch s (tail_of payload) later id (
            Since-weaken t'.send_epoch (s + 1) t'.send_epoch (position inbound t').1 later
              (ground arith) since),
        d,
      ),
    )

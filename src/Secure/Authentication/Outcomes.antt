-- ===== src/Secure/Authentication/Outcomes.antt =====
-- What `check_proof` and `confirm_identity` have found where they end well.
use intranet_penetration_clo.Common.{
  ℕ, ◌≡◌, refl, Bool, true, false, Option, none, some, eqb, length, arith, Bool-cases, inl, inr, ap,
  sym, ◌∙◌,
}
use intranet_penetration_clo.Common.Result.{Result, ok, err}
use intranet_penetration_clo.Common.Action.{chain}
use intranet_penetration_clo.Common.Dict.{lookup, insert, lookup-insert_self}
use intranet_penetration_clo.Common.Key.{pair_key, text_key, nat_key, list_key}
use intranet_penetration_clo.Packet.{Bytes}
use intranet_penetration_clo.Secure.{
  SessionKey, StoredSession, Store, SecureError, echo_mismatch, no_proof, no_secret, no_challenge,
  bad_proof, no_remote_key, no_session_key,
}
use intranet_penetration_clo.Secure.Crypto.{Crypto, Message3, secret_proof}
use intranet_penetration_clo.Secure.Sessions.{
  is_other, on_session, confirmed, confirm_session_public_key,
}
use intranet_penetration_clo.Secure.Peer.{Secured, SecureAction, need, check}
use intranet_penetration_clo.Secure.Handshake.{
  is_echo, is_proof, key_of_32, check_proof, confirm_identity,
}

module _ (c : Crypto) where
  need-ok :
      {A B : Type 0} (o : Option A) (e : SecureError) (s t : Secured c) (f : A → SecureAction c B)
      (b : B)
      → Path (Result SecureError B × Secured c) (chain (need c o e s) f) (ok b, t)
      → (a : A) × (o ≡ some a) × (f a s ≡ (ok b, t))
  need-ok none e s t f b h = absurd (ground (arith, h))
  need-ok (some a) e s t f b h = (a, refl, h)

  check-ok :
      {B : Type 0} (x : Bool) (e : SecureError) (s t : Secured c) (f : Unit {0} → SecureAction c B)
      (b : B)
      → Path (Result SecureError B × Secured c) (chain (check c x e s) f) (ok b, t)
      → (x ≡ true) × (f tt s ≡ (ok b, t))
  check-ok true e s t f b h = (refl, h)
  check-ok false e s t f b h = absurd (ground (arith, h))

  -- What a client's last message has to hold.
  pub record HasProof (m : Message3) (s : Secured c) : Type 0 where
    pub secret : Bytes
    pub challenge : Bytes
    pub echoed : is_echo c m s.peer ≡ true
    pub selected : s.peer.network_secret ≡ some secret
    pub challenged : s.peer.proof_challenge ≡ some challenge
    pub proven : m.secret_proof_32 ≡ some (secret_proof c secret challenge)

  check_last-ok :
      (x : Bool) (e : SecureError) (s t : Secured c) (u : Unit {0})
      → Path (Result SecureError (Unit {0}) × Secured c) (check c x e s) (ok u, t)
      → (x ≡ true) × (t ≡ s)
  check_last-ok true e s t u h = (refl, ground (arith, h))
  check_last-ok false e s t u h = absurd (ground (arith, h))

  pub check_proof-ok :
      (m : Message3) (s t : Secured c) (u : Unit {0})
      → check_proof c m s ≡ (ok u, t)
      → HasProof m s × (t ≡ s)
  unfolding check_proof
  check_proof-ok m s t u h =
      let (echo, h1) = check-ok (is_echo c m s.peer) echo_mismatch s t _ u h in
      let (proof, e1, h2) = need-ok m.secret_proof_32 no_proof s t _ u h1 in
      let (secret, e2, h3) = need-ok s.peer.network_secret no_secret s t _ u h2 in
      let (challenge, e3, h4) = need-ok s.peer.proof_challenge no_challenge s t _ u h3 in
      let (good, same) = check_last-ok (is_proof c proof secret challenge) bad_proof s t u h4 in
      (
        record {
          secret = secret;
          challenge = challenge;
          echoed = echo;
          selected = e2;
          challenged = e3;
          proven =
              e1
              ∙ ap some (sym ((list_key.same_iff (secret_proof c secret challenge) proof).0 good));
        },
        same,
      )

  -- The session that a client's key is checked against, and what becomes of it.
  pub record Confirms (remote : Bytes) (key : SessionKey) (now : ℕ) (store store' : Store)
      : Type 0 where
    pub session : StoredSession
    pub stored : lookup key store ≡ some session
    pub consistent : is_other remote session.remote_public_key ≡ false
    pub kept :
        lookup key store'
        ≡ some (record session { remote_public_key = some remote; last_touch_ms = now })

  confirm_found :
      (remote : Bytes) (key : SessionKey) (now : ℕ) (o : Option StoredSession)
      (store store' : Store) (u : Unit {0})
      → on_session key (confirmed remote now) o store ≡ (ok u, store')
      → lookup key store ≡ o
      → Confirms remote key now store store'
  confirm_found remote key now none store store' u h e = absurd (ground (arith, h))
  confirm_found remote key now (some session) store store' u h e =
      elim (Bool-cases (is_other remote session.remote_public_key)) [
        | inl other ↦ absurd (ground (arith, h, other))
        | inr same ↦
            let changed : StoredSession = record session {
              remote_public_key = some remote;
              last_touch_ms = now;
            } in
            let put : store' ≡ insert key changed store = ground (arith, h, same) in
            record {
              session = session;
              stored = e;
              consistent = same;
              kept = rw put (lookup-insert_self key changed store);
            }
      ]

  confirm-Confirms :
      (remote : Bytes) (key : SessionKey) (now : ℕ) (store store' : Store) (u : Unit {0})
      → confirm_session_public_key key remote now store ≡ (ok u, store')
      → Confirms remote key now store store'
  unfolding confirm_session_public_key
  confirm-Confirms remote key now store store' u h =
      confirm_found remote key now (lookup key store) store store' u h refl

  key_of_32-some :
      (o : Option Bytes) (remote : Bytes)
      → key_of_32 c o ≡ some remote
      → (o ≡ some remote) × (length remote ≡ 32)
  key_of_32-some none remote h = absurd (ground (arith, h))
  key_of_32-some (some key) remote h = elim (Bool-cases (eqb (length key) 32)) [
    | inl fits ↦
        let e : key ≡ remote = ground (arith, h, fits) in (ap some e, rw⁻¹ e (ground (arith, fits)))
    | inr other ↦ absurd (ground (arith, h, other))
  ]

  pub record Identifies (noise : c.Noise) (now : ℕ) (s t : Secured c) : Type 0 where
    pub remote : Bytes
    pub key : SessionKey
    pub identified : c.remote_static noise ≡ some remote
    pub sized : length remote ≡ 32
    pub keyed : s.peer.session_key ≡ some key
    pub confirms : Confirms remote key now s.store t.store

  store-ok :
      (r : Result SecureError (Unit {0}) × Store) (s t : Secured c) (a b : Bytes)
      → Path
          (Result SecureError Bytes × Secured c)
          (chain (r.0, record s { store = r.1 }) (λ u t'. (ok a, t')))
          (ok b, t)
      → (r ≡ (ok tt, t.store)) × (a ≡ b) × (t.peer ≡ s.peer)
  store-ok (err e, store) s t a b h = absurd (ground (arith, h))
  store-ok (ok u, store) s t a b h =
      (ap (λ p. (ok tt, p.1.store)) h, ground (arith, h), ap (λ p. p.1.peer) (sym h))

  pub confirm_identity-Identifies :
      (noise : c.Noise) (now : ℕ) (s t : Secured c) (remote : Bytes)
      → confirm_identity c now noise s ≡ (ok remote, t)
      → Identifies noise now s t × (t.peer ≡ s.peer)
  unfolding confirm_identity
  confirm_identity-Identifies noise now s t remote h =
      let (found, e1, h1) =
        need-ok (key_of_32 c (c.remote_static noise)) no_remote_key s t _ remote h in
      let (key, e2, h2) = need-ok s.peer.session_key no_session_key s t _ remote h1 in
      let (done, same, peer) =
        store-ok (confirm_session_public_key key found now s.store) s t found remote h2 in
      let (static, size) = key_of_32-some (c.remote_static noise) found e1 in
      (
        record {
          remote = found;
          key = key;
          identified = static;
          sized = size;
          keyed = e2;
          confirms = confirm-Confirms found key now s.store t.store tt done;
        },
        peer,
      )

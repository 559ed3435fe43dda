-- ===== src/Secure/Authentication/Proofs.antt =====
-- Runs of calls: a peer is authenticated by its client's last message only.
use intranet_penetration_clo.Common.{
  ℕ, ◌≡◌, refl, Bool, true, false, List, [], ◌∷◌, arith, Bool-cases, inl, inr,
}
use intranet_penetration_clo.Common.Result.{Result, err}
use intranet_penetration_clo.Common.Action.{chain}
use intranet_penetration_clo.Common.Key.{pair_key, text_key, nat_key, list_key}
use intranet_penetration_clo.Packet.{Bytes}
use intranet_penetration_clo.Secure.{SecureError}
use intranet_penetration_clo.Secure.Crypto.{Crypto}
use intranet_penetration_clo.Secure.Peer.{Secured, SecureAction, check}
use intranet_penetration_clo.Secure.Handshake.{finish_msg3}
use intranet_penetration_clo.Secure.Channel.{encrypt_packet, decrypt_packet}
use intranet_penetration_clo.Secure.Handshake.{finish_msg3}
use intranet_penetration_clo.Secure.Channel.{is_ready}
use intranet_penetration_clo.Secure.{not_authenticated}
use intranet_penetration_clo.Secure.Authentication.{
  Call, read, build, finish, encrypt, decrypt, others, after, run, Authenticates, Happens,
  is_served,
}
use intranet_penetration_clo.Secure.Authentication.Keeps.{
  read-Keeps, build-Keeps, encrypt-Keeps, decrypt-Keeps,
}
use intranet_penetration_clo.Secure.Authentication.Steps.{finish-Proves}

module _ (c : Crypto) where
  after-Authenticates :
      (call : Call) (s : Secured c)
      → s.peer.authenticated ≡ false
      → (after c call s).peer.authenticated ≡ true
      → Authenticates c call s
  unfolding after
  after-Authenticates (finish packet now) s off on =
      finish-Proves c packet now s (finish_msg3 c packet now s).1 off
        (record { on = on; at = refl })
  after-Authenticates (read packet) s off on =
      absurd (ground (arith, off, on, (read-Keeps c packet s).same))
  after-Authenticates (build secret now conn_id random) s off on =
      absurd (ground (arith, off, on, (build-Keeps c secret now conn_id random s).same))
  after-Authenticates (encrypt packet now) s off on =
      absurd (ground (arith, off, on, (encrypt-Keeps c packet now s).same))
  after-Authenticates (decrypt packet now) s off on =
      absurd (ground (arith, off, on, (decrypt-Keeps c packet now s).same))
  after-Authenticates (others store) s off on = absurd (ground (arith, off, on))

  run-Happens :
      (calls : List Call) (s : Secured c)
      → s.peer.authenticated ≡ false
      → (run c calls s).peer.authenticated ≡ true
      → Happens c calls s
  unfolding run Happens
  run-Happens [] s off on = absurd (ground (arith, off, on))
  run-Happens (call ∷ calls) s off on = elim (Bool-cases (after c call s).peer.authenticated) [
    | inl now_on ↦ inl (after-Authenticates call s off now_on)
    | inr still_off ↦ inr (run-Happens calls (after c call s) still_off on)
  ]

  refuses :
      {B : Type 0} (x : Bool) (e : SecureError) (s : Secured c) (f : Unit {0} → SecureAction c B)
      → x ≡ false
      → Path (Result SecureError B × Secured c) (chain (check c x e s) f) (err e, s)
  refuses true e s f h = absurd (ground (arith, h))
  refuses false e s f h = refl

  encrypt_packet-refuses :
      (packet : Bytes) (now : ℕ) (s : Secured c)
      → s.peer.authenticated ≡ false
      → encrypt_packet c packet now s ≡ (err not_authenticated, s)
  unfolding encrypt_packet
  encrypt_packet-refuses packet now s off =
      refuses (is_ready c s.peer) not_authenticated s _ (ground (arith, off))

  decrypt_packet-refuses :
      (packet : Bytes) (now : ℕ) (s : Secured c)
      → s.peer.authenticated ≡ false
      → decrypt_packet c packet now s ≡ (err not_authenticated, s)
  unfolding decrypt_packet
  decrypt_packet-refuses packet now s off =
      refuses (is_ready c s.peer) not_authenticated s _ (ground (arith, off))

  -- Whatever is called on a peer that is not authenticated, and whatever others do to the session store
  -- meanwhile, the peer encrypts or decrypts a packet afterwards only if one of the calls was a
  -- finish_msg3 whose message proved the network's secret for this handshake and the client's key.
  pub is_served-Happens :
      (calls : List Call) (packet : Bytes) (now : ℕ) (s : Secured c)
      → s.peer.authenticated ≡ false
      → is_served c packet now (run c calls s) ≡ true
      → Happens c calls s
  is_served-Happens calls packet now s off served =
      elim (Bool-cases (run c calls s).peer.authenticated) [
        | inl on ↦ run-Happens calls s off on
        | inr closed ↦ absurd (
            ground (
              arith,
              served,
              encrypt_packet-refuses packet now (run c calls s) closed,
              decrypt_packet-refuses packet now (run c calls s) closed,
            ))
      ]

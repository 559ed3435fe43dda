-- ===== src/Secure/Authentication/Keeps.antt =====
-- Which calls leave a peer as authenticated as it is.
use intranet_penetration_clo.Common.{
  ℕ, ◌≡◌, String, Bool, true, false, Option, List, if◌then◌else◌, arith,
}
use intranet_penetration_clo.Common.Result.{Result, ok, err}
use intranet_penetration_clo.Common.Action.{Action, chain}
use intranet_penetration_clo.Common.Key.{pair_key, text_key, nat_key, list_key}
use intranet_penetration_clo.Packet.{Bytes}
use intranet_penetration_clo.Secure.{Store, SecureError}
use intranet_penetration_clo.Secure.Crypto.{Crypto, Message3}
use intranet_penetration_clo.Secure.Peer.{
  Secured, SecureAction, split_packet, check, on_store, load_session_state, save_session_state,
  attach_peer,
}
use intranet_penetration_clo.Secure.Handshake.{read_msg1, build_msg2, check_proof, confirm_identity}
use intranet_penetration_clo.Secure.Channel.{encrypt_packet, decrypt_packet}

module _ (c : Crypto) where
  -- The outcome of a call leaves the peer as authenticated as `b` says.
  pub record Keeps {A : Type 0} (b : Bool) (r : Result SecureError A × Secured c) : Type 0 where
    pub same : r.1.peer.authenticated ≡ b

  pub chain-Keeps :
      {A B : Type 0} (r : Result SecureError A × Secured c) (f : A → SecureAction c B) (b : Bool)
      → Keeps b r
      → ((a : A) (t : Secured c) → t.peer.authenticated ≡ b → Keeps b (f a t))
      → Keeps b (chain r f)
  chain-Keeps (ok a, t) f b h k = k a t h.same
  chain-Keeps (err e, t) f b h k = record { same = h.same }

  pub returns-Keeps :
      {A : Type 0} (r : Result SecureError A) (s : Secured c) (b : Bool)
      → s.peer.authenticated ≡ b
      → Keeps b (r, s)
  returns-Keeps r s b h = record { same = h }

  pub check-Keeps :
      (x : Bool) (e : SecureError) (s : Secured c) (b : Bool)
      → s.peer.authenticated ≡ b
      → Keeps b (check c x e s)
  check-Keeps true e s b h = record { same = h }
  check-Keeps false e s b h = record { same = h }

  pub split-Keeps :
      (packet : Bytes) (s : Secured c) (b : Bool)
      → s.peer.authenticated ≡ b
      → Keeps b (split_packet c packet s)
  split-Keeps packet s b h = record { same = ground (arith, h) }

  pub load-Keeps :
      (s : Secured c) (b : Bool) → s.peer.authenticated ≡ b → Keeps b (load_session_state c s)
  unfolding load_session_state
  load-Keeps s b h = record { same = ground (arith, h) }

  pub save-Keeps :
      (now : ℕ) (s : Secured c) (b : Bool)
      → s.peer.authenticated ≡ b
      → Keeps b (save_session_state c now s)
  unfolding save_session_state
  save-Keeps now s b h = record { same = ground (arith, h) }

  pub attach-Keeps :
      (now : ℕ) (s : Secured c) (b : Bool)
      → s.peer.authenticated ≡ b
      → Keeps b (attach_peer c now s)
  unfolding attach_peer
  attach-Keeps now s b h = record { same = ground (arith, h) }

  -- The calls before the last message.
  pub read-Keeps :
      (packet : Bytes) (s : Secured c) → Keeps s.peer.authenticated (read_msg1 c packet s)
  unfolding read_msg1
  read-Keeps packet s =
      search (chain-Keeps, check-Keeps, split-Keeps, returns-Keeps) depth 24 fits 2000

  pub upsert-Keeps :
      {A : Type 0} (m : Action SecureError Store A) (s : Secured c) (b : Bool)
      → s.peer.authenticated ≡ b
      → Keeps b (on_store c m s)
  upsert-Keeps m s b h = record { same = h }

  pub build-Keeps :
      (secret : String) (now : ℕ) (conn_id : Option (List ℕ)) (random : Option Bytes)
      (s : Secured c)
      → Keeps s.peer.authenticated (build_msg2 c secret now conn_id random s)
  unfolding build_msg2
  build-Keeps secret now conn_id random s =
      search (chain-Keeps, check-Keeps, upsert-Keeps, attach-Keeps, load-Keeps, returns-Keeps) depth
        40 fits 4000

  pub encrypt-Keeps :
      (packet : Bytes) (now : ℕ) (s : Secured c)
      → Keeps s.peer.authenticated (encrypt_packet c packet now s)
  unfolding encrypt_packet
  encrypt-Keeps packet now s =
      search (chain-Keeps, check-Keeps, split-Keeps, load-Keeps, save-Keeps, returns-Keeps) depth 30
        fits 3000

  pub if-Keeps :
      {A : Type 0} (x : Bool) (m n : SecureAction c A) (s : Secured c) (b : Bool)
      → Keeps b (m s)
      → Keeps b (n s)
      → Keeps b ((if x then m else n) s)
  if-Keeps true m n s b hm hn = hm
  if-Keeps false m n s b hm hn = hn

  pub decrypt-Keeps :
      (packet : Bytes) (now : ℕ) (s : Secured c)
      → Keeps s.peer.authenticated (decrypt_packet c packet now s)
  unfolding decrypt_packet
  decrypt-Keeps packet now s =
      search
        (chain-Keeps, check-Keeps, split-Keeps, load-Keeps, save-Keeps, if-Keeps, returns-Keeps)
        depth 30 fits 3000

  pub proof-Keeps :
      (m : Message3) (s : Secured c) (b : Bool)
      → s.peer.authenticated ≡ b
      → Keeps b (check_proof c m s)
  unfolding check_proof
  proof-Keeps m s b h = search (chain-Keeps, check-Keeps, returns-Keeps) depth 20

  pub identity-Keeps :
      (now : ℕ) (noise : c.Noise) (s : Secured c) (b : Bool)
      → s.peer.authenticated ≡ b
      → Keeps b (confirm_identity c now noise s)
  unfolding confirm_identity
  identity-Keeps now noise s b h = search (chain-Keeps, upsert-Keeps, returns-Keeps) depth 20

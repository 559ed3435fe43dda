-- ===== src/Secure/Authentication/Steps.antt =====
-- `finish_msg3` step by step: what a client's last message holds once the peer is authenticated.
use intranet_penetration_clo.Common.{
  ℕ, ◌≡◌, refl, Bool, true, false, Option, none, some, drop, arith, Option-cases, inl, inr, ap,
  subst,
}
use intranet_penetration_clo.Common.Result.{Result, ok, err}
use intranet_penetration_clo.Common.Action.{chain}
use intranet_penetration_clo.Common.Key.{pair_key, text_key, nat_key, list_key}
use intranet_penetration_clo.Packet.{Bytes, ParsedPacket, parse_packet, header_size}
use intranet_penetration_clo.Secure.{SecureError, wrong_packet, no_message1, no_message2}
use intranet_penetration_clo.Secure.Crypto.{Crypto, Message3}
use intranet_penetration_clo.Secure.Peer.{Secured, SecureAction, split_packet, need, check}
use intranet_penetration_clo.Secure.Handshake.{
  finish_msg3, is_message3, decoded_message3, is_echo, check_proof, confirm_identity,
}
use intranet_penetration_clo.Secure.Authentication.{Proves}
use intranet_penetration_clo.Secure.Authentication.Outcomes.{
  HasProof, Identifies, check_proof-ok, confirm_identity-Identifies,
}
use intranet_penetration_clo.Secure.Authentication.Keeps.{split-Keeps, proof-Keeps, identity-Keeps}

module _ (c : Crypto) where
  -- A call after which the peer is authenticated.
  pub record Turns {A : Type 0} (s' : Secured c) (r : Result SecureError A × Secured c)
      : Type 0 where
    pub on : r.1.peer.authenticated ≡ true
    pub at : r.1 ≡ s'

  chain-Turns :
      {A B : Type 0} (s' : Secured c) (r : Result SecureError A × Secured c)
      (f : A → SecureAction c B)
      → r.1.peer.authenticated ≡ false
      → Turns s' (chain r f)
      → (a : A) × (t : Secured c) × (r ≡ (ok a, t)) × Turns s' (f a t)
  chain-Turns s' (ok a, t) f off h = (a, t, refl, h)
  chain-Turns s' (err e, t) f off h = absurd (ground (arith, off, h.on))

  need-Turns :
      {A B : Type 0} (s' : Secured c) (o : Option A) (e : SecureError) (s : Secured c)
      (f : A → SecureAction c B)
      → s.peer.authenticated ≡ false
      → Turns s' (chain (need c o e s) f)
      → (a : A) × (o ≡ some a) × Turns s' (f a s)
  need-Turns s' none e s f off h = absurd (ground (arith, off, h.on))
  need-Turns s' (some a) e s f off h = (a, refl, h)

  check-Turns :
      {B : Type 0} (s' : Secured c) (x : Bool) (e : SecureError) (s : Secured c)
      (f : Unit {0} → SecureAction c B)
      → s.peer.authenticated ≡ false
      → Turns s' (chain (check c x e s) f)
      → (x ≡ true) × Turns s' (f tt s)
  check-Turns s' true e s f off h = (refl, h)
  check-Turns s' false e s f off h = absurd (ground (arith, off, h.on))

  split-ok :
      (packet : Bytes) (s t : Secured c) (frame : ParsedPacket)
      → split_packet c packet s ≡ (ok frame, t)
      → (parse_packet packet ≡ ok frame.header)
        × (frame.payload ≡ drop header_size packet)
        × (t ≡ s)
  split-ok packet s t frame h = ground (arith, h)

  split-Turns :
      {B : Type 0} (s' : Secured c) (packet : Bytes) (s : Secured c)
      (f : ParsedPacket → SecureAction c B)
      → s.peer.authenticated ≡ false
      → Turns s' (chain (split_packet c packet s) f)
      → (frame : ParsedPacket) × (parse_packet packet ≡ ok frame.header)
        × (frame.payload ≡ drop header_size packet)
        × Turns s' (f frame s)
  split-Turns s' packet s f off h =
      let (frame, t, e, on) =
        chain-Turns s' (split_packet c packet s) f (split-Keeps c packet s false off).same h in
      let (parsed, rest, same) = split-ok packet s t frame e in
      (frame, parsed, rest, subst (λ x. Turns s' (f frame x)) same on)

  result-Turns :
      {A B : Type 0} (s' : Secured c) (r : Result SecureError A) (s : Secured c)
      (f : A → SecureAction c B)
      → s.peer.authenticated ≡ false
      → Turns s' (chain (r, s) f)
      → (a : A) × (r ≡ ok a) × Turns s' (f a s)
  result-Turns s' (ok a) s f off h = (a, refl, h)
  result-Turns s' (err e) s f off h = absurd (ground (arith, off, h.on))

  abbrev without_noise : Secured c → Secured c
  without_noise s = record s { peer = record s.peer { handshake = none } }

  taken-Turns :
      {B : Type 0} (s' : Secured c) (o : Option c.Noise) (e : SecureError) (s : Secured c)
      (f : c.Noise → SecureAction c B)
      → s.peer.authenticated ≡ false
      → Turns s' (chain (chain (need c o e s) (λ noise t. (ok noise, without_noise t))) f)
      → (noise : c.Noise) × (o ≡ some noise) × Turns s' (f noise (without_noise s))
  taken-Turns s' none e s f off h = absurd (ground (arith, off, h.on))
  taken-Turns s' (some noise) e s f off h = (noise, refl, h)

  proof-Turns :
      {B : Type 0} (s' : Secured c) (m : Message3) (s : Secured c) (f : Unit {0} → SecureAction c B)
      → s.peer.authenticated ≡ false
      → Turns s' (chain (check_proof c m s) f)
      → HasProof c m s × Turns s' (f tt s)
  proof-Turns s' m s f off h =
      let (u, t, e, on) =
        chain-Turns s' (check_proof c m s) f (proof-Keeps c m s false off).same h in
      let (proof, same) = check_proof-ok c m s t u e in
      (proof, subst (λ x. Turns s' (f tt x)) same on)

  decoded-ok :
      (o : Option Bytes) (m : Message3)
      → decoded_message3 c o ≡ ok m
      → (plain : Bytes) × (o ≡ some plain) × (c.decode_message3 plain ≡ some m)
  decoded-ok none m h = absurd (ground (arith, h))
  decoded-ok (some plain) m h = elim (Option-cases (c.decode_message3 plain)) [
    | inl missing ↦ absurd (ground (arith, h, missing))
    | inr (message, e) ↦ (plain, refl, ground (arith, h, e))
  ]

  -- The parts of a proof together.
  assemble :
      (packet : Bytes) (now : ℕ) (s s' t : Secured c) (frame : ParsedPacket) (peer_id : ℕ)
      (noise : c.Noise) (plain : Bytes) (m : Message3)
      → parse_packet packet ≡ ok frame.header
      → frame.payload ≡ drop header_size packet
      → s.peer.peer_id ≡ some peer_id
      → is_message3 c frame.header peer_id s.peer.server_peer_id ≡ true
      → s.peer.handshake ≡ some noise
      → (c.read_message frame.payload noise).0 ≡ some plain
      → c.decode_message3 plain ≡ some m
      → HasProof c m (without_noise s)
      → Identifies c (c.read_message frame.payload noise).1 now (without_noise s) t
      → t.store ≡ s'.store
      → Proves c packet now s s'
  unfolding is_echo
  assemble packet now s s' t frame peer_id noise plain m parsed rest known addressed handshaking
        readable decoded proof identity stores =
      record {
        header = frame.header;
        peer_id = peer_id;
        noise = noise;
        plain = plain;
        message = m;
        secret = proof.secret;
        challenge = proof.challenge;
        remote = identity.remote;
        key = identity.key;
        session = identity.confirms.session;
        parsed = parsed;
        known = known;
        addressed = addressed;
        handshaking = handshaking;
        readable = rw⁻¹ rest readable;
        decoded = decoded;
        echoed = proof.echoed;
        selected = proof.selected;
        challenged = proof.challenged;
        proven = proof.proven;
        identified = rw⁻¹ rest identity.identified;
        sized = identity.sized;
        keyed = identity.keyed;
        stored = identity.confirms.stored;
        consistent = identity.confirms.consistent;
        kept = rw⁻¹ stores identity.confirms.kept;
      }

  pub finish-Proves :
      (packet : Bytes) (now : ℕ) (s s' : Secured c)
      → s.peer.authenticated ≡ false
      → Turns s' (finish_msg3 c packet now s)
      → Proves c packet now s s'
  unfolding finish_msg3
  finish-Proves packet now s s' off h =
      let (frame, parsed, rest, h1) = split-Turns s' packet s _ off h in
      let (peer_id, known, h2) = need-Turns s' s.peer.peer_id no_message1 s _ off h1 in
      let (addressed, h3) =
        check-Turns s' (is_message3 c frame.header peer_id s.peer.server_peer_id) wrong_packet s _
          off h2 in
      let (noise, handshaking, h4) = taken-Turns s' s.peer.handshake no_message2 s _ off h3 in
      let (m, e5, h5) =
        result-Turns s' (decoded_message3 c (c.read_message frame.payload noise).0)
          (without_noise s) _ off h4 in
      let (plain, readable, decoded) = decoded-ok (c.read_message frame.payload noise).0 m e5 in
      let (proof, h6) = proof-Turns s' m (without_noise s) _ off h5 in
      let noise' = (c.read_message frame.payload noise).1 in
      let (remote, t, e7, h7) =
        chain-Turns s' (confirm_identity c now noise' (without_noise s)) _
          (identity-Keeps c now noise' (without_noise s) false off).same h6 in
      let (identity, _) = confirm_identity-Identifies c noise' now (without_noise s) t remote e7 in
      assemble packet now s s' t frame peer_id noise plain m parsed rest known addressed handshaking
        readable decoded proof identity (ap (λ x. x.store) h7.at)

-- ===== src/Server/Handlers/Delivery.antt =====
-- What a message of a connection can bring about: a frame for another peer goes to the connection
-- registered for it in the sender's own network, and a breach of the protocol closes the sender.
use intranet_penetration_clo.Common.{
  ℕ, zero, suc, ◌≡◌, refl, ◌≢◌, ◌≤◌, true, false, Option, none, some, eqb, ltb, length, arith, ◌⊎◌,
  ◌∙◌, inl, inr, Bool-cases,
}
use intranet_penetration_clo.Common.Result.{Result, ok, err, Result-cases}
use intranet_penetration_clo.Common.Action.{rescue}
use intranet_penetration_clo.Packet.{
  Bytes, PacketHeader, PacketError, Message, binary, text, text_message, server_peer_id,
  is_encrypted, parse_frame, increment_forward_counter, to_uint8_array, ParsedPacket,
}
use intranet_penetration_clo.Packet.PacketType
use intranet_penetration_clo.Connection.{Phase, msg1, msg3, ready, closed}
use intranet_penetration_clo.Rooms.{get}
use intranet_penetration_clo.Server.{
  Platform, Relay, Fault, connection_of, send_packet, packet_fault, out_of_order, not_msg3,
  source_mismatch, encrypted_ping, clear_rpc, frame_too_large,
}
use intranet_penetration_clo.Server.Closing.{State, is_ready, close}
use intranet_penetration_clo.Server.Handlers.{
  forward_to, handle_ready_packet, handle_direct, handle_message, on_message, by_phase,
  handle_handshake_message1, handle_handshake_message3,
}

module _ (p : Platform) (fuel : ℕ) where
  -- The outcomes of handing a packet to a connection.
  abbrev pub Handed :
      ℕ → State p → Result Fault (Unit {0}) × Relay p → Result Fault (Unit {0}) × State p → Type 0
  Handed target s (ok _, w) r = r ≡ (ok tt, (s.0, w))
  Handed target s (err e, w) r = r ≡ close p fuel target 1013 (s.0, w)

  -- The outcomes for a frame to a registered connection.
  abbrev pub Passed : Bytes → Option ℕ → State p → Result Fault (Unit {0}) × State p → Type 0
  Passed frame none s r = r ≡ (ok tt, s)
  Passed frame (some target) s r =
      (((connection_of p s.1 target).phase ≢ ready) × (r ≡ (ok tt, s)))
      ⊎ (((connection_of p s.1 target).phase ≡ ready)
          × (e : PacketError) × (increment_forward_counter frame ≡ err e)
          × (r ≡ (err (packet_fault e), s)))
      ⊎ (((connection_of p s.1 target).phase ≡ ready)
          × (next : Bytes) × (increment_forward_counter frame ≡ ok next)
          × Handed target s (send_packet p target next s.1) r)

  is_ready-eq : (phase : Phase) → is_ready phase ≡ true → phase ≡ ready
  is_ready-eq ready h = refl
  is_ready-eq msg1 h = ground arith
  is_ready-eq msg3 h = ground arith
  is_ready-eq closed h = ground arith

  is_ready-ne : (phase : Phase) → is_ready phase ≡ false → phase ≢ ready
  is_ready-ne ready h = ground arith
  is_ready-ne msg1 h = ground arith
  is_ready-ne msg3 h = ground arith
  is_ready-ne closed h = ground arith

  rescue-Handed :
      (target : ℕ) (s : State p) (sent : Result Fault (Unit {0}) × Relay p)
      → Handed target s sent (rescue (sent.0, (s.0, sent.1)) (λ e. close p fuel target 1013))
  rescue-Handed target s (ok _, w) = refl
  rescue-Handed target s (err e, w) = refl

  forward_to-Passed :
      (frame : Bytes) (target : Option ℕ) (s : State p)
      → Passed frame target s (forward_to p fuel frame target s)
  unfolding forward_to
  forward_to-Passed frame none s = refl
  forward_to-Passed frame (some target) s =
      elim (Bool-cases (is_ready (connection_of p s.1 target).phase)) [
        | inr waits ↦ inl (is_ready-ne _ waits, rw waits)
        | inl able ↦ elim (Result-cases (increment_forward_counter frame)) [
          | inl (e, refused) ↦ inr (inl (is_ready-eq _ able, e, refused, rw (able, refused) refl))
          | inr (next, passes) ↦ inr (
              inr (
                is_ready-eq _ able,
                next,
                passes,
                rw (able, passes) (rescue-Handed target s (send_packet p target next s.1)),
              ))
        ]
      ]

  -- A message that holds an acceptable frame.
  pub record Carries (s : State p) (message : Message) (frame : Bytes) (packet : ParsedPacket)
      : Type 0 where
    pub is_binary : message ≡ binary frame
    pub fits : length frame ≤ s.1.config.max_frame_bytes
    pub parsed : parse_frame frame ≡ ok packet

  Carries-by_phase :
      (id : ℕ) (s : State p) (message : Message) (frame : Bytes) (packet : ParsedPacket)
      → Carries s message frame packet
      → handle_message p fuel id message s
        ≡ by_phase p fuel (connection_of p s.1 id).phase id frame packet.header s
  unfolding handle_message to_uint8_array
  Carries-by_phase id s message frame packet c =
      let small : ltb s.1.config.max_frame_bytes (length frame) ≡ false = ground (arith, c.fits) in
      rw (c.is_binary, small, c.parsed) refl

  -- A frame for another peer that a ready connection sends changes nothing but what its delivery
  -- does to the one connection that is registered for that peer in the sender's network: none is
  -- registered or ready and nothing happens, the frame has run out of hops, it is handed over with
  -- its counter raised, or handing over fails and that connection is closed.
  pub handle_message-Passed :
      (id : ℕ) (s : State p) (message : Message) (frame : Bytes) (packet : ParsedPacket)
      → Carries s message frame packet
      → (connection_of p s.1 id).phase ≡ ready
      → packet.header.to_peer_id ≢ server_peer_id
      → Passed frame
          (get (connection_of p s.1 id).network_name packet.header.to_peer_id s.1.rooms)
          s
          (handle_message p fuel id message s)
  handle_message-Passed id s message frame packet c able other =
      let target = get (connection_of p s.1 id).network_name packet.header.to_peer_id s.1.rooms in
      let elsewhere : eqb packet.header.to_peer_id server_peer_id ≡ false = ground arith in
      rw (Carries-by_phase id s message frame packet c, able)
        (unfold by_phase handle_ready_packet in rw elsewhere (forward_to-Passed frame target s))

  -- What a connection in this phase, of this peer, must not send.
  abbrev pub Breach : Phase → ℕ → PacketHeader → Type 0
  Breach msg1 peer_id h = h.packet_type ≢ PacketType.noise_handshake_msg1
  Breach msg3 peer_id h = h.packet_type ≢ PacketType.noise_handshake_msg3
  Breach ready peer_id h =
      (h.to_peer_id ≡ server_peer_id)
      × ((h.from_peer_id ≢ peer_id)
          ⊎ (((h.packet_type ≡ PacketType.ping) ⊎ (h.packet_type ≡ PacketType.pong))
              × (is_encrypted h.flags ≡ true))
          ⊎ (((h.packet_type ≡ PacketType.rpc_req) ⊎ (h.packet_type ≡ PacketType.rpc_resp))
              × (is_encrypted h.flags ≡ false)))
  Breach closed peer_id h = ⊥

  Breach-raises :
      (phase : Phase) (id : ℕ) (frame : Bytes) (h : PacketHeader) (s : State p)
      → Breach phase (connection_of p s.1 id).peer_id h
      → (e : Fault) × (by_phase p fuel phase id frame h s ≡ (err e, s))
  unfolding by_phase handle_handshake_message1 handle_handshake_message3 handle_ready_packet
      handle_direct
  Breach-raises msg1 id frame h s b = (out_of_order, ground arith)
  Breach-raises msg3 id frame h s b = (not_msg3, ground arith)
  Breach-raises ready id frame h s (here, inl other) = (source_mismatch, ground arith)
  Breach-raises ready id frame h s (here, inr (inl (kind, encrypted))) =
      elim (Bool-cases (eqb h.from_peer_id (connection_of p s.1 id).peer_id)) [
        | inl own ↦ (encrypted_ping, ground arith)
        | inr other ↦ (source_mismatch, ground arith)
      ]
  Breach-raises ready id frame h s (here, inr (inr (kind, clear))) =
      elim (Bool-cases (eqb h.from_peer_id (connection_of p s.1 id).peer_id)) [
        | inl own ↦ (clear_rpc, ground arith)
        | inr other ↦ (source_mismatch, ground arith)
      ]
  Breach-raises closed id frame h s b = absurd b

  -- An acceptable frame that breaches the protocol, a message of the wrong kind in the handshake
  -- or, afterwards, a frame to the relay with a foreign source, an encrypted Ping or Pong or an
  -- unencrypted RPC packet, closes the connection with code 4401 and has no other effect.
  pub on_message-Breach :
      (id : ℕ) (s : State p) (message : Message) (frame : Bytes) (packet : ParsedPacket)
      → Carries s message frame packet
      → Breach (connection_of p s.1 id).phase (connection_of p s.1 id).peer_id packet.header
      → on_message p fuel id message s ≡ close p fuel id 4401 s
  on_message-Breach id s message frame packet c b =
      let (e, raised) = Breach-raises _ id frame packet.header s b in
      let handled = Carries-by_phase id s message frame packet c ∙ raised in
      unfold on_message in rw handled refl

  close_closed :
      (f id code : ℕ) (s : State p)
      → (connection_of p s.1 id).phase ≡ closed
      → close p f id code s ≡ (ok tt, s)
  unfolding close
  close_closed zero id code s down = rw down refl
  close_closed (suc f) id code s down = rw down refl

  handle_message_closed :
      (id : ℕ) (s : State p) (message : Message)
      → (connection_of p s.1 id).phase ≡ closed
      → (handle_message p fuel id message s ≡ (ok tt, s))
        ⊎ ((e : Fault) × (handle_message p fuel id message s ≡ (err e, s)))
  unfolding handle_message to_uint8_array by_phase
  handle_message_closed id s text down = inr (packet_fault text_message, refl)
  handle_message_closed id s (binary frame) down =
      elim (Bool-cases (ltb s.1.config.max_frame_bytes (length frame))) [
        | inl large ↦ inr (frame_too_large, rw large refl)
        | inr small ↦ elim (Result-cases (parse_frame frame)) [
          | inl (e, refused) ↦ inr (packet_fault e, rw (small, refused) refl)
          | inr (packet, parsed) ↦ inl (rw (small, parsed, down) refl)
        ]
      ]

  -- A message that arrives after its connection was closed changes nothing.
  pub on_message_closed :
      (id : ℕ) (s : State p) (message : Message)
      → (connection_of p s.1 id).phase ≡ closed
      → on_message p fuel id message s ≡ (ok tt, s)
  unfolding on_message
  on_message_closed id s message down = elim (handle_message_closed id s message down) [
    | inl done ↦ rw done refl
    | inr (e, raised) ↦ rw raised (close_closed fuel id 4401 s down)
  ]

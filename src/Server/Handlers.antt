-- ===== src/Server/Handlers.antt =====
-- The events of the relay: a request, a message, the end of a socket, and the two timers, from
-- cloudflare/src/server.ts. A clock that stands still during an event is the runtime's behaviour.
-- `fuel` bounds the closings that set off each other.
pub mod Delivery
use intranet_penetration_clo.Common.{
  ℕ, String, Bool, true, false, not, ◌&&◌, ◌||◌, Option, none, some, List, [], ◌∷◌, eqb, ltb, leb,
  length, ◌++◌, if◌then◌else◌,
}
use intranet_penetration_clo.Common.Result.{Result, ok, err, map_err}
use intranet_penetration_clo.Common.Action.{pure, raise, ◌>>=◌, ◌>>◌, catching, when}
use intranet_penetration_clo.Common.Dict.{lookup}
use intranet_penetration_clo.Common.Key.{text_key}
use intranet_penetration_clo.Packet.{
  Bytes, PacketHeader, Message, ParsedPacket, server_peer_id, is_encrypted, parse_frame,
  increment_forward_counter, create_pong, to_uint8_array,
}
use intranet_penetration_clo.Packet.PacketType
use intranet_penetration_clo.Messages.{
  HandshakeInfo, AuthenticationInfo, parse_handshake_info, parse_authentication_info,
}
use intranet_penetration_clo.Connection.{
  Connection, Phase, msg1, msg3, ready, closed, create_connection, complete_handshake,
}
use intranet_penetration_clo.RouteSync.{RouteSyncFailure, add_peer, clean_expired}
use intranet_penetration_clo.RouteSync.Requests.{
  RequestOutcome, route, handled, route_session, pending, handle_request, handle_response,
  maintain_peer,
}
use intranet_penetration_clo.Rooms.{get, set}
use intranet_penetration_clo.Server.{
  Platform, Entry, Relay, Fault, entry_of, connection_of, put_entry, put_connection, rpc_host,
  call_secure, send_packet, frame_too_large, out_of_order, not_msg3, identity_mismatch,
  source_mismatch, encrypted_ping, clear_rpc, packet_fault, message_fault,
}
use intranet_penetration_clo.Server.Closing.{
  State, ServerAction, on_relay, is_ready, broadcast_with, remove_with, close,
}

abbrev pub max_connections : ℕ
max_connections = 2_048

-- The answers of `fetch`.
pub data Response : Type 0 where
  not_found upgrade_required at_capacity invalid_keys : Response
  accepted : (connection : ℕ) → Response

abbrev is_route : RequestOutcome → Bool
is_route route = true
is_route handled = false
is_route route_session = false
is_route pending = false

abbrev is_empty : List ℕ → Bool
is_empty [] = true
is_empty (_ ∷ _) = false

module _ (p : Platform) (fuel : ℕ) where
  -- A pure check, and an operation on the relay alone, as actions.
  abbrev pub lift : {A : Type 0} → Result Fault A → ServerAction p A
  lift r s = (r, s)

  abbrev pub on_world : {A : Type 0} → (Relay p → Result Fault A × Relay p) → ServerAction p A
  on_world f s = ((f s.1).0, (s.0, (f s.1).1))

  abbrev update_connection : ℕ → (Connection → Connection) → ServerAction p (Unit {0})
  update_connection id f = on_relay p (λ w. put_connection p id (f (connection_of p w id)) w)

  -- The second half of the first handshake message, on the network's secret.
  enter_room : ℕ → HandshakeInfo → Option String → ServerAction p (Unit {0})
  enter_room id info none = close p fuel id 4403
  enter_room id info (some secret) = do
    update_connection id
        (λ c. record c { peer_id = info.peer_id; network_name = info.network_name })
    msg2 ← on_world (call_secure p id (p.build_msg2 secret))
    on_world (send_packet p id msg2)
    update_connection id (λ c. record c { phase = msg3 })

  unfoldable pub handle_handshake_message1 : ℕ → Bytes → ℕ → ServerAction p (Unit {0})
  unfolding enter_room
  handle_handshake_message1 id frame packet_type =
      if not (eqb packet_type PacketType.noise_handshake_msg1) then raise out_of_order else (do
        json ← on_world (call_secure p id (p.read_msg1 frame))
        info ← lift (map_err message_fault (parse_handshake_info p.runtime json))
        (λ s. enter_room id info (lookup info.network_name s.1.config.rooms) s))

  replace : ℕ → Option ℕ → ServerAction p (Unit {0})
  replace id none = pure tt
  replace id (some replaced) = when (not (eqb replaced id)) (close p fuel replaced 4000)

  unfoldable pub register_connection : ℕ → ServerAction p (Unit {0})
  unfolding replace
  register_connection id = do
    replaced ← on_world (λ w.
        let c = connection_of p w id in
        let r = set c.network_name c.peer_id id w.rooms in (ok r.1, record w { rooms = r.0 }))
    replace id replaced
    (λ s. let r = add_peer (rpc_host p) id s.0 s.1 in (r.0, (r.1, r.2)))

  is_authenticated : AuthenticationInfo → Connection → Bool
  is_authenticated auth c =
      eqb auth.peer_id c.peer_id && text_key.same auth.network_name c.network_name

  unfoldable pub handle_handshake_message3 : ℕ → Bytes → ℕ → ServerAction p (Unit {0})
  unfolding is_authenticated
  handle_handshake_message3 id frame packet_type =
      if not (eqb packet_type PacketType.noise_handshake_msg3) then raise not_msg3 else (do
        json ← on_world (call_secure p id (p.finish_msg3 frame))
        auth ← lift (map_err message_fault (parse_authentication_info p.runtime json))
        (λ s.
            if is_authenticated auth (connection_of p s.1 id)
            then (ok tt, s)
            else (err identity_mismatch, s))
        update_connection id (λ c. record c { remote_public_key = auth.remote_public_key })
        register_connection id
        update_connection id complete_handshake
        (λ s. broadcast_with p (close p fuel) (connection_of p s.1 id).network_name none s))

  -- A frame for another peer, to the connection that the registry has for it.
  forward_to : Bytes → Option ℕ → ServerAction p (Unit {0})
  forward_to frame none s = (ok tt, s)
  forward_to frame (some target) s =
      if is_ready (connection_of p s.1 target).phase
      then (do
        forwarded ← lift (map_err packet_fault (increment_forward_counter frame))
        catching (on_world (send_packet p target forwarded)) (λ e. close p fuel target 1013))
          s
      else (ok tt, s)

  after_request : ℕ → RequestOutcome → ServerAction p (Unit {0})
  after_request id outcome s =
      let c = connection_of p s.1 id in
      when (is_route outcome) (broadcast_with p (close p fuel) c.network_name (some c.peer_id)) s

  packet_handler : ℕ → Bool → ParsedPacket → ServerAction p (Unit {0})
  unfolding after_request
  packet_handler id true packet s =
      (do
        outcome ← (λ s'. handle_request (rpc_host p) id packet.payload s'.1.clock s')
        after_request id outcome)
        s
  packet_handler id false packet s = handle_response (rpc_host p) id packet.payload s.1.clock s

  -- A decrypted request or response.
  handle_clear : ℕ → Bool → Bytes → ServerAction p (Unit {0})
  unfolding packet_handler
  handle_clear id is_request clear = if eqb (length clear) 0 then pure tt else (do
    packet ← lift (map_err packet_fault (parse_frame clear))
    packet_handler id is_request packet)

  -- A frame for the relay itself.
  handle_direct : ℕ → Bytes → PacketHeader → ServerAction p (Unit {0})
  unfolding handle_clear
  handle_direct id frame header s =
      let is_ping = eqb header.packet_type PacketType.ping in
      let is_pong = eqb header.packet_type PacketType.pong in
      let is_request = eqb header.packet_type PacketType.rpc_req in
      let is_response = eqb header.packet_type PacketType.rpc_resp in
      if not (eqb header.from_peer_id (connection_of p s.1 id).peer_id)
      then (err source_mismatch, s)
      else if (is_ping || is_pong) && is_encrypted header.flags
      then (err encrypted_ping, s)
      else if is_ping
      then (do
        pong ← lift (map_err packet_fault (create_pong frame))
        on_world (send_packet p id pong))
          s
      else if is_pong || (not is_request && not is_response)
      then (ok tt, s)
      else if not (is_encrypted header.flags)
      then (err clear_rpc, s)
      else (do
        clear ← on_world (call_secure p id (p.decrypt_packet frame))
        handle_clear id is_request clear)
          s

  unfoldable pub handle_ready_packet : ℕ → Bytes → PacketHeader → ServerAction p (Unit {0})
  unfolding forward_to handle_direct
  handle_ready_packet id frame header s =
      if not (eqb header.to_peer_id server_peer_id)
      then forward_to frame (get (connection_of p s.1 id).network_name header.to_peer_id s.1.rooms)
          s
      else handle_direct id frame header s

  by_phase : Phase → ℕ → Bytes → PacketHeader → ServerAction p (Unit {0})
  by_phase msg1 id frame header = handle_handshake_message1 id frame header.packet_type
  by_phase msg3 id frame header = handle_handshake_message3 id frame header.packet_type
  by_phase ready id frame header = handle_ready_packet id frame header
  by_phase closed id frame header = pure tt

  unfoldable pub handle_message : ℕ → Message → ServerAction p (Unit {0})
  unfolding by_phase
  handle_message id message = do
    frame ← lift (map_err packet_fault (to_uint8_array message))
    (λ s.
        if ltb s.1.config.max_frame_bytes (length frame)
        then (err frame_too_large, s)
        else (ok tt, s))
    packet ← lift (map_err packet_fault (parse_frame frame))
    (λ s. by_phase (connection_of p s.1 id).phase id frame packet.header s)

  -- The listener of messages, with `failConnection`.
  unfoldable pub on_message : ℕ → Message → ServerAction p (Unit {0})
  on_message id message = catching (handle_message id message) (λ e. close p fuel id 4401)

  -- The listeners of `close` and `error`.
  unfoldable pub on_socket_end : ℕ → ServerAction p (Unit {0})
  on_socket_end id = remove_with p (close p fuel) id

  unfoldable pub on_handshake_timeout : ℕ → ServerAction p (Unit {0})
  on_handshake_timeout id = close p fuel id 4408

  abbrev schedule_maintenance : Relay p → Relay p
  schedule_maintenance w =
      if w.maintenance_timer || is_empty w.connections
      then w
      else record w { maintenance_timer = true }

  close_found : Option ℕ → ServerAction p (Unit {0})
  close_found none = pure tt
  close_found (some id) = close p fuel id 1011

  close_failures : List (RouteSyncFailure Fault) → ServerAction p (Unit {0})
  unfolding close_found
  close_failures [] = pure tt
  close_failures (failure ∷ rest) = do
    (λ s.
        let c = connection_of p s.1 failure.peer in
        close_found (get c.network_name c.peer_id s.1.rooms) s)
    close_failures rest

  -- A connection that an earlier round has closed is not ready.
  maintain_connections : ℕ → List ℕ → ServerAction p (Unit {0})
  maintain_connections now [] = pure tt
  maintain_connections now (id ∷ rest) = do
    (λ s.
        if is_ready (connection_of p s.1 id).phase
        then catching (maintain_peer (rpc_host p) id now s.1.clock) (λ e. close p fuel id 1011) s
        else (ok tt, s))
    maintain_connections now rest

  unfoldable pub on_maintenance : ServerAction p (Unit {0})
  unfolding close_failures maintain_connections
  on_maintenance = do
    on_relay p (λ w. record w { maintenance_timer = false })
    failures ← (λ s. let r = clean_expired (rpc_host p) s.1.clock s.0 s.1 in (ok r.0, (r.1, r.2)))
    close_failures failures
    (λ s. maintain_connections s.1.clock s.1.connections s)
    on_relay p schedule_maintenance

  -- The object is numbered by the objects before it.
  open_connection : (high low : ℕ) → Option p.Secure → State p → Response × State p
  open_connection high low none s = (invalid_keys, s)
  open_connection high low (some secure) s =
      let id = length s.1.entries in
      let w =
        put_entry p id
          (record {
            connection = create_connection s.1.clock high low;
            secure = some secure;
            is_open = true;
          })
          s.1 in
      (
        accepted id,
        (s.0, schedule_maintenance (record w { connections = w.connections ++ (id ∷ []) })),
      )

  -- On the path, the `Upgrade` header and two random words.
  unfoldable pub fetch :
      (is_root is_websocket : Bool) → (high low : ℕ) → State p → Response × State p
  unfolding open_connection
  fetch is_root is_websocket high low s =
      if not is_root
      then (not_found, s)
      else if not is_websocket
      then (upgrade_required, s)
      else if leb max_connections (length s.1.connections)
      then (at_capacity, s)
      else open_connection high low
          (p.new_secure s.1.config.local_private_key s.1.config.local_public_key server_peer_id) s

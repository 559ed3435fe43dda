-- ===== src/Server.antt =====
-- The state of the relay, the class `EasyTierServer` of cloudflare/src/server.ts, and what it takes
-- from its surroundings. A connection object is its number: the entries are the objects, and
-- `connections` and `rooms` refer to them, as the maps of the source do.
pub mod Closing
pub mod Handlers
pub mod Tests
use intranet_penetration_clo.Common.{
  ℕ, suc, String, Bool, true, false, Option, none, some, List, [], ◌∷◌, length, if◌then◌else◌,
}
use intranet_penetration_clo.Common.Result.{Result, ok, err, map_err, ok_or}
use intranet_penetration_clo.Common.Dict.{Dict, lookup, insert}
use intranet_penetration_clo.Common.Key.{nat_key}
use intranet_penetration_clo.Packet.{Bytes, PacketError}
use intranet_penetration_clo.Json.{Runtime}
use intranet_penetration_clo.Config.{ServerConfig}
use intranet_penetration_clo.Messages.{MessageError}
use intranet_penetration_clo.Connection.{Connection, SendError, closed, send_connection}
use intranet_penetration_clo.RouteSync.{RpcHost}
use intranet_penetration_clo.Rooms.{Rooms}

-- The errors of the server and of what it calls.
pub data Fault : Type 0 where
  frame_too_large out_of_order not_msg3 identity_mismatch source_mismatch encrypted_ping : Fault
  clear_rpc secure_fault freed core_fault socket_fault empty_response out_of_fuel : Fault
  unknown_result : Option ℕ → Fault
  packet_fault : PacketError → Fault
  message_fault : MessageError → Fault
  send_fault : SendError → Fault

-- The secure peer and the RPC core of the WASM module, the runtime, and the two operations of a
-- WebSocket, which may throw. Where an operation returns `none`, it throws.
pub record Platform : Type 1 where
  pub Secure : Type 0
  pub Core : Type 0
  pub runtime : Runtime
  pub new_secure : String → String → ℕ → Option Secure
  pub read_msg1 : Bytes → Secure → Option String × Secure
  pub build_msg2 : String → Secure → Option Bytes × Secure
  pub finish_msg3 : Bytes → Secure → Option String × Secure
  pub encrypt_packet : Bytes → Secure → Option Bytes × Secure
  pub decrypt_packet : Bytes → Secure → Option Bytes × Secure
  pub add_peer : String → ℕ → Bytes → Core → Option (Unit {0}) × Core
  pub remove_peer : String → ℕ → Core → Core
  pub clean_expired : ℕ → Core → Core
  pub handle_request : String → ℕ → Bytes → ℕ → Core → Option Bytes × Core
  pub handle_response : String → ℕ → Bytes → ℕ → Core → Option Bool × Core
  pub build_route_update : String → ℕ → ℕ → Bool → ℕ → Core → Option Bytes × Core
  -- Whether the socket of a connection throws in the n-th call of all sockets.
  pub close_throws : ℕ → ℕ → Bool
  pub send_throws : ℕ → ℕ → Bool

module _ (p : Platform) where
  open p use {Secure, Core}

  -- A connection object, with its secure peer until that is freed, and whether its socket is open.
  pub record Entry : Type 0 where
    pub connection : Connection
    pub secure : Option Secure
    pub is_open : Bool

  pub record Relay : Type 0 where
    pub config : ServerConfig
    pub entries : Dict ℕ Entry
    pub connections : List ℕ
    pub rooms : Rooms
    pub core : Core
    pub maintenance_timer : Bool
    pub clock : ℕ
    -- The calls of sockets so far, the ones that threw among them.
    pub socket_calls : ℕ
    -- What the sockets were given, the latest first: packets, and codes of closing.
    pub sent : List (ℕ × Bytes)
    pub closings : List (ℕ × ℕ)

  -- A number that belongs to no object reads as a closed connection.
  abbrev absent : Entry
  absent = record {
    connection = record {
      peer_id = 0;
      network_name = "";
      server_session_id = 0;
      remote_public_key = [];
      phase = closed;
      handshake_timer = false;
      send_window_started_at = 0;
      sent_bytes_in_window = 0;
      sent_frames_in_window = 0;
    };
    secure = none;
    is_open = false;
  }

  abbrev entry_or_absent : Option Entry → Entry
  entry_or_absent none = absent
  entry_or_absent (some entry) = entry

  abbrev pub entry_of : Relay → ℕ → Entry
  entry_of w id = entry_or_absent (lookup id w.entries)

  abbrev pub connection_of : Relay → ℕ → Connection
  connection_of w id = (entry_of w id).connection

  abbrev pub put_entry : ℕ → Entry → Relay → Relay
  put_entry id entry w = record w { entries = insert id entry w.entries }

  abbrev pub put_connection : ℕ → Connection → Relay → Relay
  put_connection id c w = put_entry id (record (entry_of w id) { connection = c }) w

  -- A call of the secure peer of an object.
  with_secure :
      {A : Type 0}
      → ℕ
      → (Secure → Option A × Secure)
      → Option Secure
      → Relay
      → Result Fault A × Relay
  with_secure id operation none w = (err freed, w)
  with_secure id operation (some secure) w = (
    ok_or (operation secure).0 secure_fault,
    put_entry id (record (entry_of w id) { secure = some (operation secure).1 }) w,
  )

  unfoldable pub call_secure :
      {A : Type 0} → ℕ → (Secure → Option A × Secure) → Relay → Result Fault A × Relay
  unfolding with_secure
  call_secure id operation w = with_secure id operation (entry_of w id).secure w

  -- The socket's own `send`, once the budget has let the packet through.
  deliver : ℕ → Bytes → Result SendError (Unit {0}) → Relay → Result Fault (Unit {0}) × Relay
  deliver id packet (err e) w = (err (send_fault e), w)
  deliver id packet (ok _) w =
      let called = record w { socket_calls = suc w.socket_calls } in
      if p.send_throws id w.socket_calls
      then (err socket_fault, called)
      else (ok tt, record called { sent = (id, packet) ∷ w.sent })

  -- `connection.send`
  unfoldable pub send_packet : ℕ → Bytes → Relay → Result Fault (Unit {0}) × Relay
  unfolding deliver
  send_packet id packet w =
      let metered =
        send_connection w.clock (entry_of w id).is_open (length packet) (connection_of w id) in
      deliver id packet metered.0 (put_connection id metered.1 w)

  abbrev pub on_core : {A : Type 0} → Option A × Core → Relay → Result Fault A × Relay
  on_core (r, core) w = (ok_or r core_fault, record w { core = core })

  -- What route synchronisation is given.
  abbrev pub rpc_host : RpcHost
  rpc_host = record {
    World = Relay;
    Fault = Fault;
    key = λ w id. ((connection_of w id).network_name, (connection_of w id).peer_id);
    core_add_peer = λ id w.
        let c = connection_of w id in
        on_core (p.add_peer c.network_name c.peer_id c.remote_public_key w.core) w;
    core_remove_peer = λ id w.
        let c = connection_of w id in
        record w { core = p.remove_peer c.network_name c.peer_id w.core };
    core_clean_expired = λ now w. record w { core = p.clean_expired now w.core };
    core_handle_request = λ id payload now w.
        let c = connection_of w id in
        on_core (p.handle_request c.network_name c.peer_id payload now w.core) w;
    core_handle_response = λ id payload now w.
        let c = connection_of w id in
        on_core (p.handle_response c.network_name c.peer_id payload now w.core) w;
    core_build_route_update = λ id force_full now w.
        let c = connection_of w id in
        on_core
          (p.build_route_update c.network_name c.peer_id c.server_session_id force_full now w.core)
          w;
    encrypt = λ id packet w. call_secure id (p.encrypt_packet packet) w;
    send = send_packet;
    packet_fault = packet_fault;
    empty_response = empty_response;
    unknown_result = unknown_result;
  }

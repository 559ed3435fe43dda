-- ===== src/Server/Tests.antt =====
-- A relay with two ready connections of one network, and the laws of its messages.
use intranet_penetration_clo.Common.{
  ◌+◌, ℕ, ◌≡◌, refl, true, false, none, some, [], ◌∷◌, arith, replicate, inl,
}
use intranet_penetration_clo.Common.Result.{ok}
use intranet_penetration_clo.Common.Dict.{lookup}
use intranet_penetration_clo.Packet.{
  Bytes, PacketHeader, ParsedPacket, binary, parse_frame, parse_packet, expected_len,
}
use intranet_penetration_clo.Config.{ServerConfig}
use intranet_penetration_clo.Connection.{Phase, ready, closed}
use intranet_penetration_clo.Rooms.{get}
use intranet_penetration_clo.Server.{Platform, Entry}
use intranet_penetration_clo.Server.Closing.{State, close}
use intranet_penetration_clo.Server.Closing.Phases.{phase_of, StayClosed}
use intranet_penetration_clo.Server.Closing.Fuel.{Covers, close_enough, close_closes}
use intranet_penetration_clo.Server.Handlers.{handle_message, on_message}
use intranet_penetration_clo.Server.Handlers.Delivery.{
  Carries, Passed, handle_message-Passed, on_message-Breach, on_message_closed,
}

abbrev pub platform : Platform
platform = record {
  Secure = ℕ;
  Core = ℕ;
  runtime = record { json_parse = λ text. none; atob = λ text. none; to_number = λ text. none };
  new_secure = λ private public peer_id. some 0;
  read_msg1 = λ frame secure. (none, secure);
  build_msg2 = λ secret secure. (some [], secure);
  finish_msg3 = λ frame secure. (none, secure);
  encrypt_packet = λ packet secure. (some packet, secure);
  decrypt_packet = λ packet secure. (some packet, secure);
  add_peer = λ network peer_id key core. (some tt, core);
  remove_peer = λ network peer_id core. core;
  clean_expired = λ now core. core;
  handle_request = λ network peer_id payload now core. (none, core);
  handle_response = λ network peer_id payload now core. (some true, core);
  build_route_update = λ network peer_id session full now core. (some (1 ∷ []), core);
  close_throws = λ id n. false;
  send_throws = λ id n. false;
}

abbrev config : ServerConfig
config = record {
  rooms = ("home", "secret") ∷ [];
  hostname = "edge";
  local_private_key = "private";
  local_public_key = "public";
  local_public_key_bytes = replicate 32 7;
  max_frame_bytes = 4096;
}

abbrev entry : ℕ → Phase → Entry platform
entry peer_id phase = record {
  connection = record {
    peer_id = peer_id;
    network_name = "home";
    server_session_id = 1;
    remote_public_key = [];
    phase = phase;
    handshake_timer = false;
    send_window_started_at = 0;
    sent_bytes_in_window = 0;
    sent_frames_in_window = 0;
  };
  secure = some 0;
  is_open = true;
}

-- Objects 0 and 1 are peers 7 and 8; object 2 was closed.
abbrev state : State platform
state = (
  [],
  record {
    config = config;
    entries = (0, entry 7 ready) ∷ (1, entry 8 ready) ∷ (2, entry 9 closed) ∷ [];
    connections = 0 ∷ 1 ∷ [];
    rooms = ("home", (7, 0) ∷ (8, 1) ∷ []) ∷ [];
    core = 0;
    maintenance_timer = true;
    clock = 100;
    sent = [];
    closings = [];
    socket_calls = 0;
  },
)

abbrev header_to : ℕ → ℕ → PacketHeader
header_to from to = record {
  from_peer_id = from;
  to_peer_id = to;
  packet_type = 1;
  flags = 0;
  forward_counter = 1;
  reserved = 0;
  len = 1;
}

abbrev frame : Bytes
frame = 7 ∷ 0 ∷ 0 ∷ 0 ∷ 8 ∷ 0 ∷ 0 ∷ 0 ∷ 1 ∷ 0 ∷ 1 ∷ 0 ∷ 1 ∷ 0 ∷ 0 ∷ 0 ∷ 5 ∷ []

abbrev packet : ParsedPacket
packet = record { header = header_to 7 8; payload = 5 ∷ [] }

frame-Carries : Carries platform 5 state (binary frame) frame packet
unfolding parse_frame parse_packet expected_len
frame-Carries = record { is_binary = refl; fits = omega arith; parsed = refl }

handle_message-Passed_example :
    Passed platform 5 frame (some 1) state (handle_message platform 5 0 (binary frame) state)
unfolding get lookup
handle_message-Passed_example =
    handle_message-Passed platform 5 0 state (binary frame) frame packet frame-Carries refl
      (omega arith)

-- A frame to the relay, 10000001, that claims to come from peer 8.
abbrev foreign_frame : Bytes
foreign_frame = 8 ∷ 0 ∷ 0 ∷ 0 ∷ 129 ∷ 150 ∷ 152 ∷ 0 ∷ 1 ∷ 0 ∷ 1 ∷ 0 ∷ 1 ∷ 0 ∷ 0 ∷ 0 ∷ 5 ∷ []

abbrev foreign_packet : ParsedPacket
foreign_packet = record { header = header_to 8 10_000_001; payload = 5 ∷ [] }

foreign_frame-Carries : Carries platform 5 state (binary foreign_frame) foreign_frame foreign_packet
unfolding parse_frame parse_packet expected_len
foreign_frame-Carries = record { is_binary = refl; fits = omega arith; parsed = refl }

on_message-Breach_example :
    on_message platform 5 0 (binary foreign_frame) state ≡ close platform 5 0 4401 state
unfolding lookup
on_message-Breach_example =
    on_message-Breach platform 5 0 state (binary foreign_frame) foreign_frame foreign_packet
      foreign_frame-Carries (refl, inl (omega arith))

on_message_closed_example : on_message platform 5 2 (binary frame) state ≡ (ok tt, state)
unfolding lookup
on_message_closed_example = on_message_closed platform 5 2 state (binary frame) refl

two_open-Covers : Covers platform (0 ∷ 1 ∷ []) state.1
unfolding lookup
two_open-Covers id out = ground arith

close_enough_example : close platform (3 + 2) 0 4000 state ≡ close platform 2 0 4000 state
close_enough_example =
    close_enough platform 3 2 0 4000 (0 ∷ 1 ∷ []) state two_open-Covers (omega arith)

close_closes_example :
    (phase_of platform (close platform 2 0 4000 state).1.1 0 ≡ closed)
    × StayClosed platform state.1 (close platform 2 0 4000 state).1.1
close_closes_example = close_closes platform 1 0 4000 state

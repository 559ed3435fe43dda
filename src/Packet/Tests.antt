-- ===== src/Packet/Tests.antt =====
-- Runs of the frame code, and its theorems at concrete frames.
use intranet_penetration_clo.Common.{◌≡◌, refl, [], ◌∷◌, ◌++◌, true, arith}
use intranet_penetration_clo.Common.Result.{ok}
use intranet_penetration_clo.Packet.{
  Bytes, PacketHeader, parse_packet, create_packet, to_bytes, parse_frame, expected_len,
  is_encrypted,
}
use intranet_penetration_clo.Packet.Frames.{
  parse_frame-create_packet, parse_packet_wraps, short_header,
}
use intranet_penetration_clo.Packet.Hops.{forward_times_limit, Relayed}

-- The frame of cloudflare/test/packet.spec.ts.
abbrev rpc_frame : Bytes
rpc_frame =
    0x40 ∷ 0x30 ∷ 0x20 ∷ 0x10 ∷ 0x80 ∷ 0x70 ∷ 0x60 ∷ 0x50 ∷ 8 ∷ 0 ∷ 1 ∷ 0 ∷ 3 ∷ 0 ∷ 0 ∷ 0 ∷ 1 ∷ 2
    ∷ 3 ∷ []

create_packet_runs : create_packet 0x10203040 0x50607080 8 (1 ∷ 2 ∷ 3 ∷ []) ≡ ok rpc_frame
unfolding create_packet to_bytes
create_packet_runs = refl

abbrev ping_frame : Bytes
ping_frame = 1 ∷ 0 ∷ 0 ∷ 0 ∷ 2 ∷ 0 ∷ 0 ∷ 0 ∷ 4 ∷ 0 ∷ 1 ∷ 0 ∷ 1 ∷ 0 ∷ 0 ∷ 0 ∷ 9 ∷ []

abbrev ping_header : PacketHeader
ping_header = record {
  from_peer_id = 1;
  to_peer_id = 2;
  packet_type = 4;
  flags = 0;
  forward_counter = 1;
  reserved = 0;
  len = 1;
}

parse_ping : parse_packet ping_frame ≡ ok ping_header
unfolding parse_packet expected_len
parse_ping = refl

parse_frame-create_packet_example :
    (frame : Bytes) × (create_packet 0x10203040 0x50607080 8 (1 ∷ 2 ∷ 3 ∷ []) ≡ ok frame)
    × (parse_frame frame
        ≡ ok (record {
          header = record {
            from_peer_id = 0x10203040;
            to_peer_id = 0x50607080;
            packet_type = 8;
            flags = 0;
            forward_counter = 1;
            reserved = 0;
            len = 3;
          };
          payload = 1 ∷ 2 ∷ 3 ∷ [];
        }))
parse_frame-create_packet_example =
    parse_frame-create_packet 0x10203040 0x50607080 8 (1 ∷ 2 ∷ 3 ∷ []) (omega arith) (omega arith)
      (omega arith) (omega arith)

forward_times_limit_example : Relayed 8 ping_frame ping_header
forward_times_limit_example = forward_times_limit 8 ping_frame ping_header parse_ping (omega arith)

-- A payload of two bytes, declared as 0xffffffe6.
parse_packet_wraps_example :
    let h = short_header 1 2 1 1 0 (7 ∷ 7 ∷ []) in
    (is_encrypted h.flags ≡ true)
    × (parse_packet (to_bytes h ++ 7 ∷ 7 ∷ []) ≡ ok h)
    × (parse_frame (to_bytes h ++ 7 ∷ 7 ∷ []) ≡ ok (record { header = h; payload = 7 ∷ 7 ∷ [] }))
parse_packet_wraps_example =
    parse_packet_wraps 1 2 1 1 0 (7 ∷ 7 ∷ []) (omega arith) (omega arith) (omega arith)
      (omega arith) (omega arith) (omega arith)

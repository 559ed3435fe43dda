-- ===== src/Packet/PacketType.antt =====
-- The enum `PacketType` of cloudflare/src/core/constants.ts, and the types that packet.rs and
-- secure.rs name.
use intranet_penetration_clo.Common.{ℕ}

abbrev pub ping : ℕ
ping = 4

abbrev pub pong : ℕ
pong = 5

abbrev pub rpc_req : ℕ
rpc_req = 8

abbrev pub rpc_resp : ℕ
rpc_resp = 9

abbrev pub noise_handshake_msg1 : ℕ
noise_handshake_msg1 = 13

abbrev pub noise_handshake_msg2 : ℕ
noise_handshake_msg2 = 14

abbrev pub noise_handshake_msg3 : ℕ
noise_handshake_msg3 = 15

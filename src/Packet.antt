-- ===== src/Packet.antt =====
-- The 16-byte EasyTier frame header: cloudflare/wasm/src/packet.rs, and the TypeScript wrappers of
-- cloudflare/src/core/packet.ts with the constants of cloudflare/src/core/constants.ts. A byte
-- string is a list of numbers below 256; `usize` is the 32-bit word of wasm32.
pub mod Codec
pub mod Frames
pub mod Hops
pub mod PacketType
mod Tests
use intranet_penetration_clo.Common.{
  ℕ, ◌+◌, ◌-◌, ◌*◌, ◌/◌, ◌%◌, ◌^◌, ◌<◌, bit_and, Bool, List, [], ◌∷◌, ◌++◌, length, get_or, set,
  drop, ltb, leb, eqb, not, if◌then◌else◌, All,
}
use intranet_penetration_clo.Common.Result.{Result, ok, err, ◌>>=◌, ◌>>◌, ensure}

abbrev pub Bytes : Type 0
Bytes = List ℕ

abbrev pub IsBytes : Bytes → Type 0
IsBytes = All (λ b. b < 256)

abbrev pub header_size : ℕ
header_size = 16

abbrev pub aead_tail_size : ℕ
aead_tail_size = 28

abbrev pub encrypted_flag : ℕ
encrypted_flag = 1

abbrev pub max_forward_hops : ℕ
max_forward_hops = 7

-- SERVER_PEER_ID
abbrev pub server_peer_id : ℕ
server_peer_id = 10_000_001

pub data PacketError : Type 0 where
  header_too_short : (actual expected : ℕ) → PacketError
  length_mismatch : (actual expected : ℕ) → PacketError
  payload_too_long hop_limit_exceeded not_a_ping text_message : PacketError

pub record PacketHeader : Type 0 where
  pub from_peer_id : ℕ
  pub to_peer_id : ℕ
  pub packet_type : ℕ
  pub flags : ℕ
  pub forward_counter : ℕ
  pub reserved : ℕ
  pub len : ℕ

abbrev pub byte_at : Bytes → ℕ → ℕ
byte_at b i = get_or b i 0

-- `u32::from_le_bytes`
abbrev pub from_le_bytes : (b0 b1 b2 b3 : ℕ) → ℕ
from_le_bytes b0 b1 b2 b3 = b0 + b1 * 256 + b2 * 65536 + b3 * 16777216

-- `u32::to_le_bytes`
abbrev pub to_le_bytes : ℕ → Bytes
to_le_bytes n = n % 256 ∷ n / 256 % 256 ∷ n / 65536 % 256 ∷ n / 16777216 % 256 ∷ []

-- The fields at their offsets, read once the length is known to suffice.
abbrev pub read_header : Bytes → PacketHeader
read_header b = record {
  from_peer_id = from_le_bytes (byte_at b 0) (byte_at b 1) (byte_at b 2) (byte_at b 3);
  to_peer_id = from_le_bytes (byte_at b 4) (byte_at b 5) (byte_at b 6) (byte_at b 7);
  packet_type = byte_at b 8;
  flags = byte_at b 9;
  forward_counter = byte_at b 10;
  reserved = byte_at b 11;
  len = from_le_bytes (byte_at b 12) (byte_at b 13) (byte_at b 14) (byte_at b 15);
}

unfoldable pub from_bytes : Bytes → Result PacketError PacketHeader
from_bytes bytes =
    if ltb (length bytes) header_size
    then err (header_too_short (length bytes) header_size)
    else ok (read_header bytes)

unfoldable pub to_bytes : PacketHeader → Bytes
to_bytes h =
    to_le_bytes h.from_peer_id
    ++ (to_le_bytes h.to_peer_id
        ++ (h.packet_type ∷ h.flags ∷ h.forward_counter ∷ h.reserved ∷ to_le_bytes h.len))

abbrev pub is_encrypted : ℕ → Bool
is_encrypted flags = not (eqb (bit_and flags encrypted_flag) 0)

-- The sum is taken in `usize`, so it wraps at 2 ^ 32.
unfoldable pub expected_len : PacketHeader → ℕ
expected_len h = (h.len + (if is_encrypted h.flags then aead_tail_size else 0)) % 2 ^ 32

unfoldable pub parse_packet : Bytes → Result PacketError PacketHeader
unfolding from_bytes
parse_packet bytes = do
  header ← from_bytes bytes
  let payload_len = length bytes - header_size
  ensure (eqb payload_len (expected_len header)) (length_mismatch payload_len (expected_len header))
  ok header

unfoldable pub inspect_packet : Bytes → Result PacketError (List ℕ)
inspect_packet bytes = do
  header ← parse_packet bytes
  ok (
      header.from_peer_id ∷ header.to_peer_id ∷ header.packet_type ∷ header.flags
      ∷ header.forward_counter ∷ header.reserved ∷ header.len ∷ [])

unfoldable pub build_packet : ℕ → ℕ → ℕ → Bytes → Result PacketError Bytes
build_packet from_peer to_peer packet_type payload = do
  ensure (ltb (length payload) (2 ^ 32)) payload_too_long
  let header : PacketHeader = record {
    from_peer_id = from_peer;
    to_peer_id = to_peer;
    packet_type = packet_type;
    flags = 0;
    forward_counter = 1;
    reserved = 0;
    len = length payload;
  }
  ok (to_bytes header ++ payload)

-- `header.forward_counter + 1` is a sum of bytes.
unfoldable pub prepare_forward : Bytes → Result PacketError Bytes
prepare_forward bytes = do
  header ← parse_packet bytes
  ensure (leb header.forward_counter max_forward_hops) hop_limit_exceeded
  ok (set bytes 10 ((header.forward_counter + 1) % 256))

unfoldable pub prepare_pong : Bytes → Result PacketError Bytes
prepare_pong bytes = do
  header ← parse_packet bytes
  ensure (eqb header.packet_type PacketType.ping) not_a_ping
  ok (set bytes 8 PacketType.pong)

-- What `parsePacket` returns.
pub record ParsedPacket : Type 0 where
  pub header : PacketHeader
  pub payload : Bytes

-- The TypeScript wrapper reads the header back from the seven numbers of `inspect_packet`.
abbrev pub header_of_values : List ℕ → PacketHeader
header_of_values values = record {
  from_peer_id = get_or values 0 0;
  to_peer_id = get_or values 1 0;
  packet_type = get_or values 2 0;
  flags = get_or values 3 0;
  forward_counter = get_or values 4 0;
  reserved = get_or values 5 0;
  len = get_or values 6 0;
}

unfoldable pub parse_frame : Bytes → Result PacketError ParsedPacket
unfolding inspect_packet
parse_frame bytes = do
  values ← inspect_packet bytes
  ok (record { header = header_of_values values; payload = drop header_size bytes })

unfoldable pub create_packet : ℕ → ℕ → ℕ → Bytes → Result PacketError Bytes
unfolding build_packet
create_packet from_peer to_peer packet_type payload =
    build_packet from_peer to_peer packet_type payload

unfoldable pub increment_forward_counter : Bytes → Result PacketError Bytes
unfolding prepare_forward
increment_forward_counter frame = prepare_forward frame

unfoldable pub create_pong : Bytes → Result PacketError Bytes
unfolding prepare_pong
create_pong frame = prepare_pong frame

-- The `event.data` of a WebSocket message.
pub data Message : Type 0 where
  text : Message
  binary : Bytes → Message

unfoldable pub to_uint8_array : Message → Result PacketError Bytes
to_uint8_array text = err text_message
to_uint8_array (binary bytes) = ok bytes

-- ===== src/Packet/Frames.antt =====
-- Whole frames: what `parse_packet` accepts, the round trip of a built packet, and the pong.
use intranet_penetration_clo.Common.{
  ℕ, ◌+◌, ◌-◌, ◌^◌, ◌≤◌, ◌<◌, ◌≡◌, refl, ◌↔◌, ◌≢◌, ◌++◌, length, drop, arith, set, true,
  if◌then◌else◌, length-set, length-append, lt→ltb, ◌⊎◌, inl, inr, eqb, Bool-cases,
}
use intranet_penetration_clo.Common.Result.{ok, err}
use intranet_penetration_clo.Packet.{
  Bytes, PacketHeader, header_too_short, not_a_ping, to_bytes, read_header, header_size,
  aead_tail_size, encrypted_flag, is_encrypted, expected_len, parse_packet, parse_frame,
  create_packet, create_pong,
}
use intranet_penetration_clo.Packet.PacketType
use intranet_penetration_clo.Packet.Codec.{
  IsHeader, length-to_bytes, from_bytes-to_bytes, read_header-set_type, drop-set,
  read_header-set_counter,
}

-- What an accepted frame satisfies.
pub record Accepts (b : Bytes) (h : PacketHeader) : Type 0 where
  pub long_enough : header_size ≤ length b
  pub reads : h ≡ read_header b
  pub payload_len : length b - header_size ≡ expected_len h

pub parse_packet-Accepts : (b : Bytes) (h : PacketHeader) → parse_packet b ≡ ok h → Accepts b h
unfolding parse_packet
parse_packet-Accepts b h e = ground arith

pub Accepts-parse_packet : (b : Bytes) (h : PacketHeader) → Accepts b h → parse_packet b ≡ ok h
unfolding parse_packet
Accepts-parse_packet b h a = ground arith

pub parse_packet-to_bytes :
    (h : PacketHeader) (payload : Bytes)
    → IsHeader h
    → length payload ≡ expected_len h
    → parse_packet (to_bytes h ++ payload) ≡ ok h
unfolding parse_packet
parse_packet-to_bytes h payload v e =
    ground (
      arith,
      from_bytes-to_bytes h payload v,
      length-append (to_bytes h) payload,
      length-to_bytes h,
    )

drop-to_bytes : (h : PacketHeader) (payload : Bytes) → drop 16 (to_bytes h ++ payload) ≡ payload
unfolding to_bytes
drop-to_bytes h payload = refl

pub parse_frame_lem :
    (b : Bytes) (h : PacketHeader)
    → parse_packet b ≡ ok h
    → parse_frame b ≡ ok (record { header = h; payload = drop 16 b })
unfolding parse_frame
parse_frame_lem b h e = rw e

-- A packet that was built parses back to the fields and the payload that it was built from.
pub parse_frame-create_packet :
    (from_peer to_peer packet_type : ℕ) (payload : Bytes)
    → from_peer < 2 ^ 32
    → to_peer < 2 ^ 32
    → packet_type < 256
    → length payload < 2 ^ 32
    → (frame : Bytes) × (create_packet from_peer to_peer packet_type payload ≡ ok frame)
      × (parse_frame frame
          ≡ ok (record {
            header = record {
              from_peer_id = from_peer;
              to_peer_id = to_peer;
              packet_type = packet_type;
              flags = 0;
              forward_counter = 1;
              reserved = 0;
              len = length payload;
            };
            payload = payload;
          }))
parse_frame-create_packet from_peer to_peer packet_type payload hf ht hp hl =
    let v : IsHeader h = omega arith in
    let parsed = parse_packet-to_bytes h payload v fits in
    (
      to_bytes h ++ payload,
      unfold create_packet in rw (lt→ltb _ _ hl),
      rw (parse_frame_lem (to_bytes h ++ payload) h parsed, drop-to_bytes h payload),
    )
  where
    h : PacketHeader
    h = record {
      from_peer_id = from_peer;
      to_peer_id = to_peer;
      packet_type = packet_type;
      flags = 0;
      forward_counter = 1;
      reserved = 0;
      len = length payload;
    }

    fits : length payload ≡ expected_len h
    fits = unfold expected_len in omega arith

-- Replacing one byte of the header keeps the frame's payload and its length check.
pub Accepts-set_type :
    (b : Bytes) (h : PacketHeader) (v : ℕ)
    → Accepts b h
    → Accepts (set b 8 v) (record h { packet_type = v })
unfolding expected_len
Accepts-set_type b h v a = record {
  long_enough = rw (length-set b 8 v) a.long_enough;
  reads = ground (arith, read_header-set_type b v a.long_enough, a.reads);
  payload_len = rw (length-set b 8 v) a.payload_len;
}

pub Accepts-set_counter :
    (b : Bytes) (h : PacketHeader) (v : ℕ)
    → Accepts b h
    → Accepts (set b 10 v) (record h { forward_counter = v })
unfolding expected_len
Accepts-set_counter b h v a = record {
  long_enough = rw (length-set b 10 v) a.long_enough;
  reads = ground (arith, read_header-set_counter b v a.long_enough, a.reads);
  payload_len = rw (length-set b 10 v) a.payload_len;
}

-- What `createPong` makes of a frame with header `h`.
abbrev pub Answered : Bytes → PacketHeader → Type 0
Answered b h =
    ((h.packet_type ≡ PacketType.ping)
      × (pong : Bytes) × (create_pong b ≡ ok pong)
      × (parse_packet pong ≡ ok (record h { packet_type = PacketType.pong }))
      × (drop 16 pong ≡ drop 16 b)
      × (create_pong pong ≡ err not_a_ping))
    ⊎ ((h.packet_type ≢ PacketType.ping) × (create_pong b ≡ err not_a_ping))

-- An accepted Ping becomes the Pong with the same addresses, flags, counter and payload, which no
-- Pong answers; every other accepted packet is refused.
pub create_pong_answers : (b : Bytes) (h : PacketHeader) → parse_packet b ≡ ok h → Answered b h
create_pong_answers b h e = elim (Bool-cases (eqb h.packet_type PacketType.ping)) [
  | inl t ↦
      let parsed =
        Accepts-parse_packet (set b 8 PacketType.pong) (record h { packet_type = PacketType.pong })
          (Accepts-set_type b h PacketType.pong (parse_packet-Accepts b h e)) in
      inl (
        ground arith,
        set b 8 PacketType.pong,
        unfold create_pong in rw e (ground arith),
        parsed,
        drop-set b 8 PacketType.pong (omega arith),
        unfold create_pong in rw parsed refl,
      )
  | inr n ↦ inr (ground arith, unfold create_pong in rw e (ground arith))
]

pub tail_of : PacketHeader → ℕ
tail_of h = if is_encrypted h.flags then aead_tail_size else 0

-- Away from the 32-bit wrap the declared length decides: a frame of at least sixteen bytes whose
-- declared length plus the tail of its mode is below 2 ^ 32 is accepted exactly when its payload
-- has that many bytes. A shorter frame is refused.
pub parse_packet_decides :
    (b : Bytes)
    → (length b < header_size → parse_packet b ≡ err (header_too_short (length b) header_size))
      × (header_size ≤ length b
          → (read_header b).len + tail_of (read_header b) < 2 ^ 32
          → (parse_packet b ≡ ok (read_header b))
            ↔ (length b ≡ header_size + (read_header b).len + tail_of (read_header b)))
unfolding parse_packet expected_len tail_of
parse_packet_decides b = (λ s. ground arith, λ s w. ground arith)

-- An encrypted frame whose payload is shorter than the tail, declared with the length that wraps to
-- the payload's.
pub short_header : ℕ → ℕ → ℕ → ℕ → ℕ → Bytes → PacketHeader
short_header from_peer to_peer packet_type counter reserved payload = record {
  from_peer_id = from_peer;
  to_peer_id = to_peer;
  packet_type = packet_type;
  flags = encrypted_flag;
  forward_counter = counter;
  reserved = reserved;
  len = 2 ^ 32 + length payload - aead_tail_size;
}

-- The wrap: every payload shorter than the tail in which every encrypted payload ends makes a frame
-- that is accepted as encrypted, whatever its addresses, type, counter and reserved byte. The length
-- that this frame declares is the payload's, short of 2 ^ 32 by the tail.
pub parse_packet_wraps :
    (from_peer to_peer packet_type counter reserved : ℕ) (payload : Bytes)
    → from_peer < 2 ^ 32
    → to_peer < 2 ^ 32
    → packet_type < 256
    → counter < 256
    → reserved < 256
    → length payload < aead_tail_size
    → let h = short_header from_peer to_peer packet_type counter reserved payload in
      (is_encrypted h.flags ≡ true)
      × (parse_packet (to_bytes h ++ payload) ≡ ok h)
      × (parse_frame (to_bytes h ++ payload) ≡ ok (record { header = h; payload = payload }))
unfolding short_header
parse_packet_wraps from_peer to_peer packet_type counter reserved payload hf ht hp hc hr short =
    let v : IsHeader h = omega arith in
    let parsed = parse_packet-to_bytes h payload v wraps in
    (refl, parsed, rw (parse_frame_lem (to_bytes h ++ payload) h parsed, drop-to_bytes h payload))
  where
    h : PacketHeader
    h = short_header from_peer to_peer packet_type counter reserved payload

    wraps : length payload ≡ expected_len h
    wraps = unfold expected_len in omega arith

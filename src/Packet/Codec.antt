-- ===== src/Packet/Codec.antt =====
-- The header's byte layout: reading and writing are inverse.
use intranet_penetration_clo.Common.{
  ℕ, zero, suc, ◌/◌, ◌%◌, ◌^◌, ◌≤◌, ◌<◌, ◌≡◌, refl, [], ◌∷◌, ◌++◌, length, drop, arith, set,
}
use intranet_penetration_clo.Common.Result.{ok}
use intranet_penetration_clo.Packet.{
  Bytes, IsBytes, PacketHeader, from_bytes, to_bytes, read_header, from_le_bytes, to_le_bytes,
  header_size,
}

-- Every field fits its width.
pub record IsHeader (h : PacketHeader) : Type 0 where
  pub from_fits : h.from_peer_id < 2 ^ 32
  pub to_fits : h.to_peer_id < 2 ^ 32
  pub type_fits : h.packet_type < 256
  pub flags_fits : h.flags < 256
  pub counter_fits : h.forward_counter < 256
  pub reserved_fits : h.reserved < 256
  pub len_fits : h.len < 2 ^ 32

from_le-to_le :
    (n : ℕ)
    → n < 2 ^ 32
    → from_le_bytes (n % 256) (n / 256 % 256) (n / 65536 % 256) (n / 16777216 % 256) ≡ n
from_le-to_le n h = omega arith

to_le-from_le :
    (a b c d : ℕ)
    → a < 256
    → b < 256
    → c < 256
    → d < 256
    → to_le_bytes (from_le_bytes a b c d) ≡ a ∷ b ∷ c ∷ d ∷ []
to_le-from_le a b c d ha hb hc hd = ground arith

pub length-to_bytes : (h : PacketHeader) → length (to_bytes h) ≡ header_size
unfolding to_bytes
length-to_bytes h = refl

-- A header that was written reads back, whatever follows it.
pub from_bytes-to_bytes :
    (h : PacketHeader) (rest : Bytes) → IsHeader h → from_bytes (to_bytes h ++ rest) ≡ ok h
unfolding from_bytes to_bytes
from_bytes-to_bytes h rest v =
    ground (arith, from_le-to_le h.from_peer_id, from_le-to_le h.to_peer_id, from_le-to_le h.len)

-- A frame of at least sixteen bytes is its header, written again, and its payload.
pub to_bytes-read_header :
    (b : Bytes) → IsBytes b → header_size ≤ length b → to_bytes (read_header b) ++ drop 16 b ≡ b
unfolding to_bytes
to_bytes-read_header
      (a0 ∷ a1 ∷ a2 ∷ a3 ∷ a4 ∷ a5 ∷ a6 ∷ a7 ∷ a8 ∷ a9 ∷ a10 ∷ a11 ∷ a12 ∷ a13 ∷ a14 ∷ a15 ∷ rest) v
      h =
    ground
      (arith, to_le-from_le a0 a1 a2 a3, to_le-from_le a4 a5 a6 a7, to_le-from_le a12 a13 a14 a15)
to_bytes-read_header _ v h = absurd (omega arith)

pub read_header-IsHeader :
    (b : Bytes) → IsBytes b → header_size ≤ length b → IsHeader (read_header b)
read_header-IsHeader
      (a0 ∷ a1 ∷ a2 ∷ a3 ∷ a4 ∷ a5 ∷ a6 ∷ a7 ∷ a8 ∷ a9 ∷ a10 ∷ a11 ∷ a12 ∷ a13 ∷ a14 ∷ a15 ∷ rest) v
      h =
    omega arith
read_header-IsHeader _ v h = absurd (omega arith)

-- Writing the byte of the hop counter or of the packet type changes that field alone.
pub read_header-set_counter :
    (b : Bytes) (v : ℕ)
    → header_size ≤ length b
    → read_header (set b 10 v) ≡ record (read_header b) { forward_counter = v }
read_header-set_counter
      (a0 ∷ a1 ∷ a2 ∷ a3 ∷ a4 ∷ a5 ∷ a6 ∷ a7 ∷ a8 ∷ a9 ∷ a10 ∷ a11 ∷ a12 ∷ a13 ∷ a14 ∷ a15 ∷ rest) v
      h =
    refl
read_header-set_counter _ v h = absurd (omega arith)

pub read_header-set_type :
    (b : Bytes) (v : ℕ)
    → header_size ≤ length b
    → read_header (set b 8 v) ≡ record (read_header b) { packet_type = v }
read_header-set_type
      (a0 ∷ a1 ∷ a2 ∷ a3 ∷ a4 ∷ a5 ∷ a6 ∷ a7 ∷ a8 ∷ a9 ∷ a10 ∷ a11 ∷ a12 ∷ a13 ∷ a14 ∷ a15 ∷ rest) v
      h =
    refl
read_header-set_type _ v h = absurd (omega arith)

pub drop-set : (b : Bytes) (i v : ℕ) → i < header_size → drop 16 (set b i v) ≡ drop 16 b
drop-set b i v h = drop_set_below 16 b i v h
  where
    drop_set_below : (n : ℕ) (b : Bytes) (i v : ℕ) → i < n → drop n (set b i v) ≡ drop n b
    drop_set_below zero b i v h = absurd (omega arith)
    drop_set_below (suc n) [] i v h = refl
    drop_set_below (suc n) (x ∷ b) zero v h = refl
    drop_set_below (suc n) (x ∷ b) (suc i) v h = drop_set_below n b i v (omega arith)

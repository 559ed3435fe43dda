-- ===== src/Window.antt =====
-- The replay window of cloudflare/wasm/src/secure.rs: `ReplayWindow256`, a bitmap of 32 bytes over
-- the last 256 sequence numbers. Bit `d` stands for the number `max_seq - d`. A cast of a 64-bit
-- difference to `usize` keeps its low 32 bits, since the program runs on wasm32.
pub mod Tables
pub mod Shift
pub mod History
pub mod Replay
mod Tests
use intranet_penetration_clo.Common.{
  ℕ, zero, suc, ◌+◌, ◌-◌, ◌*◌, ◌/◌, ◌%◌, ◌^◌, ◌<◌, bit_and, bit_or, Bool, true, false, not, ◌&&◌,
  ◌||◌, List, [], ◌∷◌, length, get_or, set, replicate, ltb, leb, eqb, if◌then◌else◌,
}

pub record ReplayWindow256 : Type 0 where
  pub max_seq : ℕ
  pub bitmap : List ℕ
  pub valid : Bool

-- `ReplayWindow256::default()`, which is also what `clear` leaves.
abbrev pub empty : ReplayWindow256
empty = record { max_seq = 0; bitmap = replicate 32 0; valid = false }

unfoldable pub clear : ReplayWindow256 → ReplayWindow256
clear w = record { max_seq = 0; bitmap = replicate 32 0; valid = false }

abbrev pub usize : ℕ → ℕ
usize n = n % 2 ^ 32

-- Bit `bit` of a byte: `(b >> bit) & 1 == 1`.
unfoldable pub byte_bit : ℕ → ℕ → Bool
byte_bit b bit = eqb (bit_and (b / 2 ^ bit) 1) 1

unfoldable pub test_bit : List ℕ → ℕ → Bool
test_bit bitmap idx = byte_bit (get_or bitmap (idx / 8) 0) (idx % 8)

unfoldable pub set_bit : List ℕ → ℕ → List ℕ
set_bit bitmap idx = set bitmap (idx / 8) (bit_or (get_or bitmap (idx / 8) 0) (2 ^ (idx % 8)))

-- `for i in (0..n).rev()`: the byte at `i` becomes the one `byte_shift` before it, or 0.
unfoldable pub shift_bytes : ℕ → ℕ → List ℕ → List ℕ
shift_bytes byte_shift zero bitmap = bitmap
shift_bytes byte_shift (suc i) bitmap =
    shift_bytes byte_shift i
      (set bitmap i (if leb byte_shift i then get_or bitmap (i - byte_shift) 0 else 0))

-- `for byte in &mut bitmap`, with the bits that each byte hands to the next.
unfoldable pub shift_bits : ℕ → ℕ → List ℕ → List ℕ
shift_bits bit_shift carry [] = []
shift_bits bit_shift carry (byte ∷ rest) =
    bit_or (byte * 2 ^ bit_shift % 256) carry
    ∷ shift_bits bit_shift (byte / 2 ^ (8 - bit_shift)) rest

unfoldable pub shift_right : ℕ → List ℕ → List ℕ
shift_right shift bitmap =
    if eqb shift 0
    then bitmap
    else if leb 256 shift
    then replicate 32 0
    else (let byte_shift = shift / 8 in
        let bit_shift = shift % 8 in
        let moved =
          if ltb 0 byte_shift then shift_bytes byte_shift (length bitmap) bitmap else bitmap in
        if ltb 0 bit_shift then shift_bits bit_shift 0 moved else moved)

unfoldable pub can_accept : ReplayWindow256 → ℕ → Bool
can_accept w seq =
    if not w.valid || ltb w.max_seq seq
    then true
    else ltb (usize (w.max_seq - seq)) 256 && not (test_bit w.bitmap (usize (w.max_seq - seq)))

unfoldable pub accept : ReplayWindow256 → ℕ → ReplayWindow256 × Bool
accept w seq =
    if not w.valid
    then (record { max_seq = seq; bitmap = set_bit w.bitmap 0; valid = true }, true)
    else if ltb w.max_seq seq
    then (
      record w {
        max_seq = seq;
        bitmap = set_bit (shift_right (usize (seq - w.max_seq)) w.bitmap) 0;
      },
      true,
    )
    else (let delta = usize (w.max_seq - seq) in
        if leb 256 delta || test_bit w.bitmap delta
        then (w, false)
        else (record w { bitmap = set_bit w.bitmap delta }, true))

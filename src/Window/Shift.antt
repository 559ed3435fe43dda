-- ===== src/Window/Shift.antt =====
-- The bitmap operations bit by bit.
use intranet_penetration_clo.Common.{
  ℕ, zero, suc, ◌+◌, ◌-◌, ◌*◌, ◌/◌, ◌%◌, ◌^◌, ◌≤◌, ◌<◌, bit_or, ◌≡◌, refl, true, false, List, [],
  ◌∷◌, length, get_or, set, replicate, ltb, leb, eqb, ◌∙◌, ap, if◌then◌else◌, arith, All,
  Bool-cases, inl, inr, length-set, get_or-set_self, get_or-set_ne, All-get_or, All-set,
}
use intranet_penetration_clo.Window.{test_bit, set_bit, shift_bytes, shift_bits, shift_right}
use intranet_penetration_clo.Window.Tables.{
  byte_bit-set, shifted_byte_bit, zero_bit, set_byte_range,
}

-- A bitmap as the program keeps it.
pub record IsBitmap (bitmap : List ℕ) : Type 0 where
  pub sized : length bitmap ≡ 32
  pub bytes : All (λ b. b < 256) bitmap

-- The byte loop.
pub get_or-shift_bytes :
    (s n : ℕ) (bm : List ℕ) (i : ℕ)
    → n ≤ length bm
    → get_or (shift_bytes s n bm) i 0
      ≡ (if ltb i n then (if leb s i then get_or bm (i - s) 0 else 0) else get_or bm i 0)
unfolding shift_bytes
get_or-shift_bytes s zero bm i h = ground arith
get_or-shift_bytes s (suc n) bm i h =
    let v : ℕ = if leb s n then get_or bm (n - s) 0 else 0 in
    ground (
      arith,
      get_or-shift_bytes s n (set bm n v) i (rw (length-set bm n v) (omega arith)),
      get_or-set_self bm n v 0 (omega arith),
      get_or-set_ne bm n i v 0,
      get_or-set_ne bm n (i - s) v 0,
    )

length-shift_bytes : (s n : ℕ) (bm : List ℕ) → length (shift_bytes s n bm) ≡ length bm
unfolding shift_bytes
length-shift_bytes s zero bm = refl
length-shift_bytes s (suc n) bm = length-shift_bytes s n _ ∙ length-set bm n _

shift_bytes-bytes :
    (s n : ℕ) (bm : List ℕ) → All (λ b. b < 256) bm → All (λ b. b < 256) (shift_bytes s n bm)
unfolding shift_bytes
shift_bytes-bytes s zero bm h = h
shift_bytes-bytes s (suc n) bm h =
    shift_bytes-bytes s n _
      (All-set _ bm n _ h (ground (arith, All-get_or (λ b. b < 256) bm (n - s) 0 h)))

-- The bit loop: each byte takes its low bits from the byte before it.
get_or-shift_bits :
    (k c : ℕ) (bm : List ℕ) (i : ℕ)
    → i < length bm
    → get_or (shift_bits k c bm) i 0
      ≡ bit_or
          (get_or bm i 0 * 2 ^ k % 256)
          (if eqb i 0 then c else get_or bm (i - 1) 0 / 2 ^ (8 - k))
unfolding shift_bits
get_or-shift_bits k c [] i h = absurd (omega arith)
get_or-shift_bits k c (b ∷ bm) zero h = refl
get_or-shift_bits k c (b ∷ bm) (suc zero) h =
    get_or-shift_bits k (b / 2 ^ (8 - k)) bm zero (omega arith)
get_or-shift_bits k c (b ∷ bm) (suc (suc i)) h =
    ground (arith, get_or-shift_bits k (b / 2 ^ (8 - k)) bm (suc i))

length-shift_bits : (k c : ℕ) (bm : List ℕ) → length (shift_bits k c bm) ≡ length bm
unfolding shift_bits
length-shift_bits k c [] = refl
length-shift_bits k c (b ∷ bm) = ap suc (length-shift_bits k (b / 2 ^ (8 - k)) bm)

shift_bits-bytes :
    (k y : ℕ) (bm : List ℕ)
    → k < 8
    → y < 256
    → All (λ b. b < 256) bm
    → All (λ b. b < 256) (shift_bits k (y / 2 ^ (8 - k)) bm)
unfolding shift_bits
shift_bits-bytes k y [] hk hy h = tt
shift_bits-bytes k y (b ∷ bm) hk hy h =
    ((shifted_byte_bit k b y 0 hk h.0 hy (omega arith)).0, shift_bits-bytes k b bm hk h.0 h.1)

zero-div : (n : ℕ) → 0 / n ≡ 0
zero-div n = omega arith

-- The bitmap after the byte loop, which runs only for a shift of eight or more.
moved : ℕ → List ℕ → List ℕ
moved bs bm = if ltb 0 bs then shift_bytes bs (length bm) bm else bm

get_or-moved :
    (bs : ℕ) (bm : List ℕ) (q : ℕ)
    → q < length bm
    → get_or (moved bs bm) q 0 ≡ (if leb bs q then get_or bm (q - bs) 0 else 0)
unfolding moved
get_or-moved zero bm q h = ground arith
get_or-moved (suc bs) bm q h = ground (arith, get_or-shift_bytes (suc bs) (length bm) bm q)

moved-IsBitmap : (bs : ℕ) (bm : List ℕ) → IsBitmap bm → IsBitmap (moved bs bm)
unfolding moved
moved-IsBitmap bs bm v = elim (Bool-cases (ltb 0 bs)) [
  | inl e ↦ rw e (record {
    sized = length-shift_bytes bs (length bm) bm ∙ v.sized;
    bytes = shift_bytes-bytes bs (length bm) bm v.bytes;
  })
  | inr e ↦ rw e v
]

module _ (bm : List ℕ) (v : IsBitmap bm) where
  test_bit-moved :
      (bs i : ℕ)
      → i < 256
      → test_bit (moved bs bm) i ≡ (if ltb i (bs * 8) then false else test_bit bm (i - bs * 8))
  unfolding test_bit
  test_bit-moved bs i h = ground (arith, get_or-moved bs bm (i / 8), v.sized, zero_bit (i % 8))

  test_bit-shift_bits :
      (k i : ℕ)
      → k < 8
      → i < 256
      → test_bit (shift_bits k 0 bm) i ≡ (if ltb i k then false else test_bit bm (i - k))
  unfolding test_bit
  test_bit-shift_bits k i hk h =
      let q = i / 8 in
      let x = get_or bm q 0 in
      let y : ℕ = if eqb q 0 then 0 else get_or bm (q - 1) 0 in
      let hx : x < 256 = All-get_or (λ b. b < 256) bm q 0 v.bytes (omega arith) in
      let hy' : get_or bm (q - 1) 0 < 256 =
        All-get_or (λ b. b < 256) bm (q - 1) 0 v.bytes (omega arith) in
      let hy : y < 256 = ground arith in
      ground (
        arith,
        get_or-shift_bits k 0 bm q,
        v.sized,
        zero-div (2 ^ (8 - k)),
        (shifted_byte_bit k x y (i % 8) hk hx hy (omega arith)).1,
        zero_bit (i % 8 + 8 - k),
      )

get_or-replicate : (n i : ℕ) → get_or {A = ℕ} (replicate n 0) i 0 ≡ 0
get_or-replicate zero i = refl
get_or-replicate (suc n) zero = refl
get_or-replicate (suc n) (suc i) = get_or-replicate n i

pub zero_bitmap_bit : (i : ℕ) → test_bit (replicate 32 0) i ≡ false
unfolding test_bit
zero_bitmap_bit i = rw (get_or-replicate 32 (i / 8)) (zero_bit (i % 8) (omega arith))

pub zero-IsBitmap : IsBitmap (replicate 32 0)
zero-IsBitmap = omega arith

shift_right_small :
    (s : ℕ) (bm : List ℕ)
    → 0 < s
    → s < 256
    → shift_right s bm
      ≡ (if ltb 0 (s % 8) then shift_bits (s % 8) 0 (moved (s / 8) bm) else moved (s / 8) bm)
unfolding shift_right moved
shift_right_small s bm p h = ground arith

shift_right_large : (s : ℕ) (bm : List ℕ) → 256 ≤ s → shift_right s bm ≡ replicate 32 0
unfolding shift_right
shift_right_large s bm h = ground arith

pub shift_right_zero : (bm : List ℕ) → shift_right 0 bm ≡ bm
unfolding shift_right
shift_right_zero bm = refl

shift_bits-IsBitmap : (k : ℕ) (bm : List ℕ) → k < 8 → IsBitmap bm → IsBitmap (shift_bits k 0 bm)
shift_bits-IsBitmap k bm hk v = record {
  sized = length-shift_bits k 0 bm ∙ v.sized;
  bytes = rw (← zero-div (2 ^ (8 - k))) (shift_bits-bytes k 0 bm hk (omega arith) v.bytes);
}

small-IsBitmap : (s : ℕ) (bm : List ℕ) → 0 < s → s < 256 → IsBitmap bm → IsBitmap (shift_right s bm)
small-IsBitmap s bm p h v = rw (shift_right_small s bm p h) (elim (Bool-cases (ltb 0 (s % 8))) [
  | inl e ↦ rw e (shift_bits-IsBitmap (s % 8) _ (omega arith) (moved-IsBitmap (s / 8) bm v))
  | inr e ↦ rw e (moved-IsBitmap (s / 8) bm v)
])

small_bit :
    (s : ℕ) (bm : List ℕ) (i : ℕ)
    → 0 < s
    → s < 256
    → IsBitmap bm
    → i < 256
    → test_bit (shift_right s bm) i ≡ (if ltb i s then false else test_bit bm (i - s))
small_bit s bm i p hs v h =
    let m = moved-IsBitmap (s / 8) bm v in
    ground (
      arith,
      shift_right_small s bm p hs,
      test_bit-shift_bits (moved (s / 8) bm) m (s % 8) i (omega arith) h,
      test_bit-moved bm v (s / 8) i h,
      test_bit-moved bm v (s / 8) (i - s % 8) (omega arith),
      sub_parts i s,
    )
  where
    sub_parts : (i s : ℕ) → i - s % 8 - s / 8 * 8 ≡ i - s
    sub_parts i s = omega arith

data Size (s : ℕ) : Type 0 where
  none_at_all : s ≡ 0 → Size s
  small : 0 < s → s < 256 → Size s
  large : 256 ≤ s → Size s

size : (s : ℕ) → Size s
size s = elim (Bool-cases (eqb s 0)) [
  | inl e ↦ none_at_all (ground arith)
  | inr e ↦ elim (Bool-cases (ltb s 256)) [
    | inl e' ↦ small (ground arith) (ground arith)
    | inr e' ↦ large (ground arith)
  ]
]

pub shift_right-IsBitmap : (s : ℕ) (bm : List ℕ) → IsBitmap bm → IsBitmap (shift_right s bm)
shift_right-IsBitmap s bm v = elim (size s) [
  | none_at_all e ↦ rw (e, shift_right_zero bm) v
  | small p h ↦ small-IsBitmap s bm p h v
  | large h ↦ rw (shift_right_large s bm h) zero-IsBitmap
]

-- Shifting moves every bit up by `s` places and brings in zeros, as on a 256-bit number.
pub test_bit-shift_right :
    (s : ℕ) (bm : List ℕ) (i : ℕ)
    → IsBitmap bm
    → i < 256
    → test_bit (shift_right s bm) i ≡ (if ltb i s then false else test_bit bm (i - s))
test_bit-shift_right s bm i v h = elim (size s) [
  | none_at_all e ↦ rw (e, shift_right_zero bm) (ground arith)
  | small p hs ↦ small_bit s bm i p hs v h
  | large hs ↦ ground (arith, shift_right_large s bm hs, zero_bitmap_bit i)
]

pub set_bit-IsBitmap : (bm : List ℕ) (i : ℕ) → IsBitmap bm → IsBitmap (set_bit bm i)
unfolding set_bit
set_bit-IsBitmap bm i v =
    let old : get_or bm (i / 8) 0 < 256 =
      All-get_or (λ b. b < 256) bm (i / 8) 0 v.bytes (omega arith) in
    record {
      sized = length-set bm (i / 8) _ ∙ v.sized;
      bytes =
          All-set (λ b. b < 256) bm (i / 8) _ v.bytes
            (set_byte_range (get_or bm (i / 8) 0) (i % 8) old (omega arith));
    }

pub test_bit-set_bit :
    (bm : List ℕ) (i j : ℕ)
    → IsBitmap bm
    → i < 256
    → test_bit (set_bit bm i) j ≡ (if eqb i j then true else test_bit bm j)
unfolding set_bit test_bit
test_bit-set_bit bm i j v h = ground (
  arith,
  v.sized,
  get_or-set_self bm (i / 8) (bit_or (get_or bm (i / 8) 0) (2 ^ (i % 8))) 0,
  get_or-set_ne bm (i / 8) (j / 8) (bit_or (get_or bm (i / 8) 0) (2 ^ (i % 8))) 0,
  byte_bit-set (get_or bm (i / 8) 0) (i % 8) (j % 8)
      (All-get_or (λ b. b < 256) bm (i / 8) 0 v.bytes (omega arith)),
)

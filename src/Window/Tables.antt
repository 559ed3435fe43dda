-- ===== src/Window/Tables.antt =====
-- Single bytes of the bitmap, checked for every byte and bit position by evaluation.
use intranet_penetration_clo.Common.{
  ℕ, zero, suc, ◌+◌, ◌-◌, ◌*◌, ◌/◌, ◌%◌, ◌^◌, ◌<◌, bit_or, ◌≡◌, refl, Bool, true, false, ltb, eqb,
  ltb→lt, if◌then◌else◌, arith, Bool-cases, inl, inr,
}
use intranet_penetration_clo.Common.Bits.{all_below, all_below_sound}
use intranet_penetration_clo.Window.{byte_bit}

beq : Bool → Bool → Bool
beq true b = b
beq false true = false
beq false false = true

beq-eq : (a b : Bool) → beq a b ≡ true → a ≡ b
unfolding beq
beq-eq a b h = ground arith

-- Tables over a byte and two bit positions.
all_bits : (ℕ → ℕ → ℕ → Bool) → Bool
all_bits p = all_below 256 λ b. all_below 8 λ s. all_below 8 λ t. p b s t

all_bits_sound :
    (p : ℕ → ℕ → ℕ → Bool)
    → all_bits p ≡ true
    → (b s t : ℕ) → b < 256
    → s < 8
    → t < 8
    → p b s t ≡ true
unfolding all_bits
all_bits_sound p h b s t hb hs ht =
    all_below_sound 8 (p b s) t
      (all_below_sound 8 (λ s. all_below 8 λ t. p b s t) s
        (all_below_sound 256 (λ b. all_below 8 λ s. all_below 8 λ t. p b s t) b h hb) hs)
      ht

set_table :
    all_bits (λ b s t. beq (byte_bit (bit_or b (2 ^ s)) t) (if eqb s t then true else byte_bit b t))
    ≡ true
unfolding all_bits all_below beq byte_bit
set_table = refl

pub byte_bit-set :
    (b s t : ℕ)
    → b < 256
    → s < 8
    → t < 8
    → byte_bit (bit_or b (2 ^ s)) t ≡ (if eqb s t then true else byte_bit b t)
byte_bit-set b s t hb hs ht = beq-eq _ _ (all_bits_sound _ set_table b s t hb hs ht)

low_table :
    all_bits (λ y k t.
      if ltb t k then beq (byte_bit (y / 2 ^ (8 - k)) t) (byte_bit y (t + 8 - k)) else true)
    ≡ true
unfolding all_bits all_below beq byte_bit
low_table = refl

high_table :
    all_bits
      (λ x k t. if ltb t k then true else beq (byte_bit (x * 2 ^ k % 256) t) (byte_bit x (t - k)))
    ≡ true
unfolding all_bits all_below beq byte_bit
high_table = refl

join_table :
    all_bits (λ v k t.
      beq
        (byte_bit (bit_or (v / 2 ^ k * 2 ^ k) (v % 2 ^ k)) t)
        (if ltb t k then byte_bit (v % 2 ^ k) t else byte_bit (v / 2 ^ k * 2 ^ k) t))
    ≡ true
unfolding all_bits all_below beq byte_bit
join_table = refl

join_range : all_bits (λ v k t. ltb (bit_or (v / 2 ^ k * 2 ^ k) (v % 2 ^ k)) 256) ≡ true
unfolding all_bits all_below
join_range = refl

-- The byte that `shift_bits` writes has two parts that do not overlap.
abbrev Parts : ℕ → ℕ → ℕ → ℕ → Type 0
Parts k x y v = (v < 256) × (v / 2 ^ k * 2 ^ k ≡ x * 2 ^ k % 256) × (v % 2 ^ k ≡ y / 2 ^ (8 - k))

shifted_byte-Parts : (k x y : ℕ) → k < 8 → x < 256 → y < 256 → (v : ℕ) × Parts k x y v
shifted_byte-Parts k x y hk hx hy = (x * 2 ^ k % 256 + y / 2 ^ (8 - k), parts k hk)
  where
    parts : (k : ℕ) → k < 8 → Parts k x y (x * 2 ^ k % 256 + y / 2 ^ (8 - k))
    parts zero h = omega arith
    parts (suc zero) h = omega arith
    parts (suc (suc zero)) h = omega arith
    parts (suc (suc (suc zero))) h = omega arith
    parts (suc (suc (suc (suc zero)))) h = omega arith
    parts (suc (suc (suc (suc (suc zero))))) h = omega arith
    parts (suc (suc (suc (suc (suc (suc zero)))))) h = omega arith
    parts (suc (suc (suc (suc (suc (suc (suc zero))))))) h = omega arith
    parts (suc (suc (suc (suc (suc (suc (suc (suc k)))))))) h = absurd (omega arith)

pub shifted_byte_bit :
    (k x y t : ℕ)
    → k < 8
    → x < 256
    → y < 256
    → t < 8
    → (bit_or (x * 2 ^ k % 256) (y / 2 ^ (8 - k)) < 256)
      × (byte_bit (bit_or (x * 2 ^ k % 256) (y / 2 ^ (8 - k))) t
          ≡ (if ltb t k then byte_bit y (t + 8 - k) else byte_bit x (t - k)))
shifted_byte_bit k x y t hk hx hy ht = (rw (← high, ← low) (ltb→lt _ _ range), bits)
  where
    v : ℕ
    v = (shifted_byte-Parts k x y hk hx hy).0

    facts : Parts k x y v
    facts = (shifted_byte-Parts k x y hk hx hy).1

    high : v / 2 ^ k * 2 ^ k ≡ x * 2 ^ k % 256
    high = facts.1

    low : v % 2 ^ k ≡ y / 2 ^ (8 - k)
    low = facts.2

    range : ltb (bit_or (v / 2 ^ k * 2 ^ k) (v % 2 ^ k)) 256 ≡ true
    range = all_bits_sound _ join_range v k t facts.0 hk ht

    joined :
        byte_bit (bit_or (v / 2 ^ k * 2 ^ k) (v % 2 ^ k)) t
        ≡ (if ltb t k then byte_bit (v % 2 ^ k) t else byte_bit (v / 2 ^ k * 2 ^ k) t)
    joined = beq-eq _ _ (all_bits_sound _ join_table v k t facts.0 hk ht)

    joined' :
        byte_bit (bit_or (x * 2 ^ k % 256) (y / 2 ^ (8 - k))) t
        ≡ (if ltb t k then byte_bit (y / 2 ^ (8 - k)) t else byte_bit (x * 2 ^ k % 256) t)
    joined' = rw (← high, ← low) joined

    lows :
        (if ltb t k then beq (byte_bit (y / 2 ^ (8 - k)) t) (byte_bit y (t + 8 - k)) else true)
        ≡ true
    lows = all_bits_sound _ low_table y k t hy hk ht

    highs :
        (if ltb t k then true else beq (byte_bit (x * 2 ^ k % 256) t) (byte_bit x (t - k))) ≡ true
    highs = all_bits_sound _ high_table x k t hx hk ht

    bits :
        byte_bit (bit_or (x * 2 ^ k % 256) (y / 2 ^ (8 - k))) t
        ≡ (if ltb t k then byte_bit y (t + 8 - k) else byte_bit x (t - k))
    bits = elim (Bool-cases (ltb t k)) [
      | inl below ↦ rw (joined', below) (beq-eq _ _ (rw below at lows))
      | inr above ↦ rw (joined', above) (beq-eq _ _ (rw above at highs))
    ]

zero_table : all_below 8 (λ t. beq (byte_bit 0 t) false) ≡ true
unfolding all_below beq byte_bit
zero_table = refl

pub zero_bit : (t : ℕ) → t < 8 → byte_bit 0 t ≡ false
zero_bit t h = beq-eq _ _ (all_below_sound 8 (λ t. beq (byte_bit 0 t) false) t zero_table h)

set_range : all_bits (λ b s t. ltb (bit_or b (2 ^ s)) 256) ≡ true
unfolding all_bits all_below
set_range = refl

pub set_byte_range : (b s : ℕ) → b < 256 → s < 8 → bit_or b (2 ^ s) < 256
set_byte_range b s hb hs = ltb→lt _ _ (all_bits_sound _ set_range b s 0 hb hs (omega arith))

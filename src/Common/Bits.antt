-- ===== src/Common/Bits.antt =====
-- Bit masks over bytes as arithmetic: checked for every value by evaluation.
use Prim.Native.Nat.{ℕ, zero, suc, ◌+◌, ◌*◌, ◌/◌, ◌%◌, ◌<◌, bit_and, bit_or}
use mathlib.Core.Path.{◌≡◌, refl}
use mathlib.Core.Bool.{Bool, true, false}
use native.Mathlib.Omega.{arith}
use intranet_penetration_clo.Common.Tests.{eqb, eqb_iff, if◌then◌else◌}

-- A test of every number below a bound.
unfoldable pub all_below : (bound : ℕ) → (ℕ → Bool) → Bool
all_below zero test = true
all_below (suc bound) test = if test bound then all_below bound test else false

pub all_below_sound :
    (bound : ℕ) (test : ℕ → Bool) (x : ℕ) → all_below bound test ≡ true → x < bound → test x ≡ true
unfolding all_below
all_below_sound zero test x passed below = absurd (omega arith)
all_below_sound (suc bound) test x passed below = ground (arith, all_below_sound bound test x)

low_bit_table : all_below 256 (λ x. eqb (bit_and x 1) (x % 2)) ≡ true
unfolding all_below
low_bit_table = refl

pub bit_and-one : (x : ℕ) → x < 256 → bit_and x 1 ≡ x % 2
bit_and-one x h = (eqb_iff _ _).0 (all_below_sound 256 _ x low_bit_table h)

clear_low_table : all_below 256 (λ x. eqb (bit_and x 254) (x / 2 * 2)) ≡ true
unfolding all_below
clear_low_table = refl

-- `flags & !1`
pub bit_and_clear_low : (x : ℕ) → x < 256 → bit_and x 254 ≡ x / 2 * 2
bit_and_clear_low x h = (eqb_iff _ _).0 (all_below_sound 256 _ x clear_low_table h)

set_low_table : all_below 256 (λ x. eqb (bit_or x 1) (x / 2 * 2 + 1)) ≡ true
unfolding all_below
set_low_table = refl

-- `flags | 1`
pub bit_or_set_low : (x : ℕ) → x < 256 → bit_or x 1 ≡ x / 2 * 2 + 1
bit_or_set_low x h = (eqb_iff _ _).0 (all_below_sound 256 _ x set_low_table h)

-- ===== src/Window/Tests.antt =====
-- Runs of the replay window, and its theorems at concrete runs.
use intranet_penetration_clo.Common.{ℕ, ◌+◌, ◌^◌, ◌≡◌, refl, List, [], ◌∷◌, arith, replicate}
use intranet_penetration_clo.Window.{
  empty, accept, shift_right, set_bit, shift_bytes, shift_bits, test_bit, byte_bit,
}
use intranet_penetration_clo.Window.Replay.{
  received, admitted, received_refines, received-Distinct, Distinct, received_wraps,
}

abbrev reordered : List ℕ
reordered = 5 ∷ 3 ∷ 5 ∷ 300 ∷ 4 ∷ 290 ∷ 3 ∷ 290 ∷ []

received_runs : received empty reordered ≡ 5 ∷ 3 ∷ 300 ∷ 290 ∷ []
unfolding received accept shift_right set_bit shift_bytes shift_bits test_bit byte_bit
received_runs = refl

received_refines_example : received empty reordered ≡ admitted [] reordered
received_refines_example = received_refines reordered (omega arith)

received-Distinct_example : Distinct (received empty reordered)
received-Distinct_example = received-Distinct reordered (omega arith)

received_wraps_example :
    received empty (7 ∷ (7 + 2 ^ 31) ∷ (7 + 2 ^ 32 + 2) ∷ 7 ∷ [])
    ≡ 7 ∷ (7 + 2 ^ 31) ∷ (7 + 2 ^ 32 + 2) ∷ 7 ∷ []
received_wraps_example = received_wraps 7 2 (omega arith) (omega arith)

abbrev two_bits : List ℕ
two_bits = 0x81 ∷ replicate 31 0

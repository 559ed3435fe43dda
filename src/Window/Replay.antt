-- ===== src/Window/Replay.antt =====
-- Replay protection over a whole run of packets, and where it ends on a 32-bit machine.
use intranet_penetration_clo.Common.{
  ℕ, ◌+◌, ◌-◌, ◌%◌, ◌^◌, ◌≤◌, ◌<◌, ◌≡◌, refl, true, false, List, [], ◌∷◌, replicate, if◌then◌else◌,
  arith, All, Bool-cases, inl, inr,
}
use intranet_penetration_clo.Window.{
  ReplayWindow256, empty, can_accept, accept, set_bit, shift_right,
}
use intranet_penetration_clo.Window.Shift.{zero_bitmap_bit, test_bit-set_bit, zero-IsBitmap}
use intranet_penetration_clo.Window.History.{
  contains, admissible, next, Tracks, empty-Tracks, accept-Follows, accept_first,
}

-- The sequence numbers of a run that the window accepts, in order.
unfoldable pub received : ReplayWindow256 → List ℕ → List ℕ
received w [] = []
received w (seq ∷ seqs) =
    let (w', done) = accept w seq in
    let rest = received w' seqs in if done then seq ∷ rest else rest

-- The same by the specification, over the history.
unfoldable pub admitted : List ℕ → List ℕ → List ℕ
admitted seen [] = []
admitted seen (seq ∷ seqs) =
    let rest = admitted (next seen seq) seqs in if admissible seen seq then seq ∷ rest else rest

received-admitted :
    (w : ReplayWindow256) (seen seqs : List ℕ)
    → Tracks w seen
    → All (λ s. s < 2 ^ 32) seqs
    → received w seqs ≡ admitted seen seqs
unfolding received admitted
received-admitted w seen [] t h = refl
received-admitted w seen (seq ∷ seqs) t h =
    let (same, t') = accept-Follows w seen seq t h.0 in
    rw (same, received-admitted (accept w seq).0 (next seen seq) seqs t' h.1)

-- On sequence numbers below 2 ^ 32, a fresh window accepts exactly those that the history admits:
-- the ones not accepted before and less than 256 below the highest one accepted before.
pub received_refines :
    (seqs : List ℕ) → All (λ s. s < 2 ^ 32) seqs → received empty seqs ≡ admitted [] seqs
received_refines seqs h = received-admitted empty [] seqs empty-Tracks h

abbrev pub Distinct : List ℕ → Type 0
Distinct [] = Unit
Distinct (x ∷ xs) = (contains x xs ≡ false) × Distinct xs

admitted_once :
    (seen seqs : List ℕ) (n : ℕ) → contains n seen ≡ true → contains n (admitted seen seqs) ≡ false
unfolding admitted next contains admissible
admitted_once seen [] n h = refl
admitted_once seen (seq ∷ seqs) n h =
    ground (arith, admitted_once seen seqs n, admitted_once (seq ∷ seen) seqs n)

admitted-Distinct : (seen seqs : List ℕ) → Distinct (admitted seen seqs)
unfolding admitted next
admitted-Distinct seen [] = tt
admitted-Distinct seen (seq ∷ seqs) = elim (Bool-cases (admissible seen seq)) [
  | inl e ↦
      rw e
        (admitted_once (seq ∷ seen) seqs seq (self seq seen), admitted-Distinct (seq ∷ seen) seqs)
  | inr e ↦ rw e (admitted-Distinct seen seqs)
]
  where
    self : (n : ℕ) (seen : List ℕ) → contains n (n ∷ seen) ≡ true
    self n seen = unfold contains in ground arith

-- No replay: on sequence numbers below 2 ^ 32, a fresh window accepts no number twice, in whatever
-- order and however often the numbers arrive.
pub received-Distinct :
    (seqs : List ℕ) → All (λ s. s < 2 ^ 32) seqs → Distinct (received empty seqs)
received-Distinct seqs h = rw (received_refines seqs h) (admitted-Distinct [] seqs)

-- The check before decryption and the commit after it agree, whatever the state.
pub can_accept-accept : (w : ReplayWindow256) (seq : ℕ) → can_accept w seq ≡ (accept w seq).1
unfolding can_accept accept
can_accept-accept w seq = ground arith

abbrev lone_bit : List ℕ
lone_bit = set_bit (replicate 32 0) 0

accept_jump :
    (w : ReplayWindow256) (n j : ℕ)
    → w.valid ≡ true
    → w.max_seq ≡ n
    → 256 ≤ j
    → j < 2 ^ 32
    → accept w (n + j) ≡ (record { max_seq = n + j; bitmap = lone_bit; valid = true }, true)
unfolding accept shift_right
accept_jump w n j v m far h = let e : (n + j - w.max_seq) % 2 ^ 32 ≡ j = omega arith in ground arith

accept_far_behind :
    (s d : ℕ)
    → 0 < d
    → d < 256
    → (accept (record { max_seq = s + 2 ^ 32 + d; bitmap = lone_bit; valid = true }) s).1 ≡ true
unfolding accept
accept_far_behind s d p h =
    let e : (s + 2 ^ 32 + d - s) % 2 ^ 32 ≡ d = omega arith in
    ground
      (arith, test_bit-set_bit (replicate 32 0) 0 d zero-IsBitmap (omega arith), zero_bitmap_bit d)

-- The limit: `max_seq - seq` is cut to 32 bits. After a number `s`, a jump of 2 ^ 31 and one to
-- `d` above `s + 2 ^ 32`, with 0 < d < 256, the window accepts `s` a second time.
pub received_wraps :
    (s d : ℕ)
    → 0 < d
    → d < 256
    → received empty (s ∷ (s + 2 ^ 31) ∷ (s + 2 ^ 32 + d) ∷ s ∷ [])
      ≡ s ∷ (s + 2 ^ 31) ∷ (s + 2 ^ 32 + d) ∷ s ∷ []
unfolding received
received_wraps s d p h =
    let e : s + 2 ^ 32 + d ≡ s + 2 ^ 31 + (2 ^ 31 + d) = omega arith in
    let at_s : ReplayWindow256 = record { max_seq = s; bitmap = lone_bit; valid = true } in
    let far : ReplayWindow256 = record { max_seq = s + 2 ^ 31; bitmap = lone_bit; valid = true } in
    ground (
      arith,
      accept_first empty s refl,
      accept_jump at_s s (2 ^ 31) refl refl (omega arith) (omega arith),
      accept_jump far (s + 2 ^ 31) (2 ^ 31 + d) refl refl (omega arith) (omega arith),
      e,
      accept_far_behind s d p h,
    )

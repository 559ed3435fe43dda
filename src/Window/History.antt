-- ===== src/Window/History.antt =====
-- The window and the history of the sequence numbers that it has accepted, one call at a time.
use intranet_penetration_clo.Common.{
  ℕ, ◌+◌, ◌-◌, ◌%◌, ◌^◌, ◌≤◌, ◌<◌, max, ◌≡◌, refl, Bool, true, false, not, ◌&&◌, ◌||◌, List, [],
  ◌∷◌, ltb, ltb→lt, leb, eqb, if◌then◌else◌, arith, Bool-cases, inl, inr,
}
use intranet_penetration_clo.Window.{
  ReplayWindow256, empty, test_bit, set_bit, shift_right, can_accept, accept,
}
use intranet_penetration_clo.Window.Shift.{
  IsBitmap, test_bit-shift_right, shift_right-IsBitmap, test_bit-set_bit, set_bit-IsBitmap,
  zero_bitmap_bit, zero-IsBitmap,
}

unfoldable pub contains : ℕ → List ℕ → Bool
contains n [] = false
contains n (m ∷ ms) = eqb n m || contains n ms

-- The highest number accepted so far.
unfoldable pub newest : List ℕ → ℕ
newest [] = 0
newest (m ∷ ms) = max m (newest ms)

abbrev pub is_some : List ℕ → Bool
is_some [] = false
is_some (m ∷ ms) = true

-- What a receiver should admit: a number that it has not seen, less than 256 below the newest one.
unfoldable pub admissible : List ℕ → ℕ → Bool
unfolding contains newest
admissible seen seq = not (contains seq seen) && ltb (newest seen) (seq + 256)

-- The window stands for the history `seen`.
pub record Tracks (w : ReplayWindow256) (seen : List ℕ) : Type 0 where
  pub bitmap : IsBitmap w.bitmap
  pub started : w.valid ≡ is_some seen
  pub highest : w.max_seq ≡ newest seen
  pub bounded : newest seen < 2 ^ 32
  pub bits :
      (d : ℕ)
      → d < 256
      → test_bit w.bitmap d ≡ (leb d (newest seen) && contains (newest seen - d) seen)

pub empty-Tracks : Tracks empty []
unfolding contains newest
empty-Tracks = record {
  bitmap = zero-IsBitmap;
  started = refl;
  highest = refl;
  bounded = omega arith;
  bits = λ d h. ground (arith, zero_bitmap_bit d);
}

contains_above : (seen : List ℕ) (n : ℕ) → newest seen < n → contains n seen ≡ false
unfolding contains newest
contains_above [] n h = refl
contains_above (m ∷ ms) n h = ground (arith, contains_above ms n)

unfoldable pub next : List ℕ → ℕ → List ℕ
next seen seq = if admissible seen seq then seq ∷ seen else seen

pub can_accept_admits :
    (w : ReplayWindow256) (seen : List ℕ) (seq : ℕ)
    → Tracks w seen
    → seq < 2 ^ 32
    → can_accept w seq ≡ admissible seen seq
unfolding can_accept admissible
can_accept_admits w [] seq t h = ground (arith, t.started)
can_accept_admits w (m ∷ ms) seq t h = ground (
  arith,
  t.started,
  t.highest,
  t.bounded,
  t.bits (newest (m ∷ ms) - seq),
  contains_above (m ∷ ms) seq,
)

first-Tracks :
    (w : ReplayWindow256) (seq : ℕ)
    → Tracks w []
    → seq < 2 ^ 32
    → Tracks (record { max_seq = seq; bitmap = set_bit w.bitmap 0; valid = true }) (seq ∷ [])
unfolding contains newest
first-Tracks w seq t h = record {
  bitmap = set_bit-IsBitmap w.bitmap 0 t.bitmap;
  started = refl;
  highest = omega arith;
  bounded = omega arith;
  bits = λ d hd. ground (arith, test_bit-set_bit w.bitmap 0 d t.bitmap (omega arith), t.bits d hd);
}

ahead-Tracks :
    (w : ReplayWindow256) (seen : List ℕ) (seq : ℕ)
    → Tracks w seen
    → w.valid ≡ true
    → seq < 2 ^ 32
    → newest seen < seq
    → Tracks
        (record w { max_seq = seq; bitmap = set_bit (shift_right (seq - newest seen) w.bitmap) 0 })
        (seq ∷ seen)
unfolding contains newest
ahead-Tracks w seen seq t valid h lt =
    let s = seq - newest seen in
    let shifted = shift_right-IsBitmap s w.bitmap t.bitmap in
    record {
      bitmap = set_bit-IsBitmap (shift_right s w.bitmap) 0 shifted;
      started = valid;
      highest = omega arith;
      bounded = omega arith;
      bits = λ d hd. ground (
        arith,
        test_bit-set_bit (shift_right s w.bitmap) 0 d shifted (omega arith),
        test_bit-shift_right s w.bitmap d t.bitmap hd,
        t.bits (d - s) (omega arith),
        contains_above seen (seq - d),
      );
    }

behind-Tracks :
    (w : ReplayWindow256) (seen : List ℕ) (seq : ℕ)
    → Tracks w seen
    → w.valid ≡ true
    → seq ≤ newest seen
    → newest seen < seq + 256
    → Tracks (record w { bitmap = set_bit w.bitmap (newest seen - seq) }) (seq ∷ seen)
unfolding contains newest
behind-Tracks w seen seq t valid le near = record {
  bitmap = set_bit-IsBitmap w.bitmap (newest seen - seq) t.bitmap;
  started = valid;
  highest = omega (arith, t.highest);
  bounded = omega (arith, t.bounded);
  bits = λ d hd.
      ground (
        arith,
        test_bit-set_bit w.bitmap (newest seen - seq) d t.bitmap (omega arith),
        t.bits d hd,
      );
}

pub accept_first :
    (w : ReplayWindow256) (seq : ℕ)
    → w.valid ≡ false
    → accept w seq ≡ (record { max_seq = seq; bitmap = set_bit w.bitmap 0; valid = true }, true)
unfolding accept
accept_first w seq v = ground arith

accept_ahead :
    (w : ReplayWindow256) (n seq : ℕ)
    → w.valid ≡ true
    → w.max_seq ≡ n
    → n < seq
    → seq < 2 ^ 32
    → accept w seq
      ≡ (record w { max_seq = seq; bitmap = set_bit (shift_right (seq - n) w.bitmap) 0 }, true)
unfolding accept
accept_ahead w n seq v m lt h =
    let e : (seq - w.max_seq) % 2 ^ 32 ≡ seq - n = omega arith in ground arith

accept_behind :
    (w : ReplayWindow256) (n seq : ℕ)
    → w.valid ≡ true
    → w.max_seq ≡ n
    → seq ≤ n
    → n < 2 ^ 32
    → accept w seq ≡ (
        if leb 256 (n - seq) || test_bit w.bitmap (n - seq)
        then (w, false)
        else (record w { bitmap = set_bit w.bitmap (n - seq) }, true))
unfolding accept
accept_behind w n seq v m le h =
    let e : (w.max_seq - seq) % 2 ^ 32 ≡ n - seq = omega arith in ground arith

-- A number that is not ahead is admitted exactly when its bit is clear and it is in reach.
admissible_behind :
    (w : ReplayWindow256) (seen : List ℕ) (seq : ℕ)
    → Tracks w seen
    → seq ≤ newest seen
    → admissible seen seq
      ≡ not (leb 256 (newest seen - seq) || test_bit w.bitmap (newest seen - seq))
unfolding admissible
admissible_behind w seen seq t le = ground (arith, t.bits (newest seen - seq))

admissible_ahead : (seen : List ℕ) (seq : ℕ) → newest seen < seq → admissible seen seq ≡ true
unfolding admissible
admissible_ahead seen seq lt = ground (arith, contains_above seen seq)

admissible_none : (seq : ℕ) → admissible [] seq ≡ true
unfolding admissible
admissible_none seq = ground arith

-- The outcome of one call, and the history that the new window stands for.
abbrev pub Follows : ReplayWindow256 × Bool → List ℕ → ℕ → Type 0
Follows r seen seq = (r.1 ≡ admissible seen seq) × Tracks r.0 (next seen seq)

accept-behind-Follows :
    (w : ReplayWindow256) (seen : List ℕ) (seq : ℕ)
    → Tracks w seen
    → w.valid ≡ true
    → seq ≤ newest seen
    → Follows (accept w seq) seen seq
unfolding next
accept-behind-Follows w seen seq t v le =
    elim (Bool-cases (leb 256 (newest seen - seq) || test_bit w.bitmap (newest seen - seq))) [
      | inl old ↦
          rw
            (
              accept_behind w (newest seen) seq v t.highest le t.bounded,
              admissible_behind w seen seq t le,
              old,
            )
            (refl, t)
      | inr new ↦
          rw
            (
              accept_behind w (newest seen) seq v t.highest le t.bounded,
              admissible_behind w seen seq t le,
              new,
            )
            (refl, behind-Tracks w seen seq t v le (ground arith))
    ]

pub accept-Follows :
    (w : ReplayWindow256) (seen : List ℕ) (seq : ℕ)
    → Tracks w seen
    → seq < 2 ^ 32
    → Follows (accept w seq) seen seq
unfolding next
accept-Follows w [] seq t h =
    rw (accept_first w seq t.started, admissible_none seq) (refl, first-Tracks w seq t h)
accept-Follows w (m ∷ ms) seq t h = elim (Bool-cases (ltb (newest (m ∷ ms)) seq)) [
  | inl ahead ↦
      rw
        (
          accept_ahead w (newest (m ∷ ms)) seq t.started t.highest (ltb→lt _ _ ahead) h,
          admissible_ahead (m ∷ ms) seq (ltb→lt _ _ ahead),
        )
        (refl, ahead-Tracks w (m ∷ ms) seq t t.started h (ltb→lt _ _ ahead))
  | inr behind ↦ accept-behind-Follows w (m ∷ ms) seq t t.started (ground arith)
]

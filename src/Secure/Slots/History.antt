-- ===== src/Secure/Slots/History.antt =====
-- The receive slots of one direction and the history of the epochs and sequence numbers that they
-- have accepted.
use intranet_penetration_clo.Common.{
  ℕ, ◌≤◌, ◌<◌, ◌≡◌, refl, Bool, true, false, ◌&&◌, ◌||◌, List, [], ◌∷◌, eqb, if◌then◌else◌, arith,
  All, ◌⊎◌,
}
use intranet_penetration_clo.Window.History.{Tracks, contains}
use intranet_penetration_clo.Secure.{EpochRxSlot, SlotPair}

-- An epoch and a sequence number.
abbrev pub PacketId : Type 0
PacketId = ℕ × ℕ

abbrev pub same_id : PacketId → PacketId → Bool
same_id a b = eqb a.0 b.0 && eqb a.1 b.1

abbrev pub has_id : PacketId → List PacketId → Bool
has_id a [] = false
has_id a (b ∷ bs) = same_id a b || has_id a bs

-- The sequence numbers of one epoch.
abbrev pub at_epoch : ℕ → List PacketId → List ℕ
at_epoch epoch [] = []
at_epoch epoch ((e, s) ∷ seen) =
    if eqb e epoch then s ∷ at_epoch epoch seen else at_epoch epoch seen

pub contains-at_epoch :
    (e s : ℕ) (seen : List PacketId) → contains s (at_epoch e seen) ≡ has_id (e, s) seen
unfolding contains
contains-at_epoch e s [] = refl
contains-at_epoch e s ((e', s') ∷ seen) = ground (arith, contains-at_epoch e s seen)

-- No accepted epoch is above this one.
abbrev pub Below : ℕ → List PacketId → Type 0
Below epoch seen = All (λ a. a.0 ≤ epoch) seen

pub at_epoch-above :
    (e top : ℕ) (seen : List PacketId) → Below top seen → top < e → at_epoch e seen ≡ []
at_epoch-above e top [] b h = refl
at_epoch-above e top ((e', s') ∷ seen) b h = ground (arith, at_epoch-above e top seen b.1 h, b.0)

pub Below-raise :
    (top top' : ℕ) (seen : List PacketId) → top ≤ top' → Below top seen → Below top' seen
Below-raise top top' [] h b = tt
Below-raise top top' (a ∷ seen) h b = (omega (arith, h, b.0), Below-raise top top' seen h b.1)

-- The second slot is free, or has the history of an older epoch.
abbrev pub Older : ℕ → EpochRxSlot → List PacketId → Type 0
Older top slot seen =
    (slot.valid ≡ false) ⊎ ((slot.epoch < top) × Tracks slot.window (at_epoch slot.epoch seen))

-- Slots that stand for the history `seen`.
pub record Remember (p : SlotPair) (seen : List PacketId) : Type 0 where
  pub started : p.slot0.valid ≡ true
  pub newest : Below p.slot0.epoch seen
  pub window : Tracks p.slot0.window (at_epoch p.slot0.epoch seen)
  pub older : Older p.slot0.epoch p.slot1 seen

abbrev pub Remembers : SlotPair → List PacketId → Type 0
Remembers p seen =
    ((p.slot0.valid ≡ false) × ((p.slot1.valid ≡ false) × (seen ≡ []))) ⊎ Remember p seen

abbrev pub extended : Bool → PacketId → List PacketId → List PacketId
extended accepted a seen = if accepted then a ∷ seen else seen

-- The outcome of a packet: what it accepts is new, and is remembered.
abbrev pub Recorded : PacketId → List PacketId → SlotPair × Bool → Type 0
Recorded a seen (p, accepted) =
    ((accepted && has_id a seen) ≡ false) × Remembers p (extended accepted a seen)

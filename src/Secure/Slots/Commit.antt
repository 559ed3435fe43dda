-- ===== src/Secure/Slots/Commit.antt =====
-- `commit_replay` on the slots of one direction, and the eviction of idle slots: what they do to the
-- history.
use intranet_penetration_clo.Common.{
  ℕ, ◌^◌, ◌≤◌, ◌<◌, ◌≡◌, refl, Bool, true, false, ◌&&◌, List, [], eqb, ltb, arith, Bool-cases, inl,
  inr,
}
use intranet_penetration_clo.Window.{ReplayWindow256, accept}
use intranet_penetration_clo.Window.History.{Tracks, empty-Tracks, accept-Follows, admissible, next}
use intranet_penetration_clo.Secure.{EpochRxSlot, SlotPair}
use intranet_penetration_clo.Secure.Slots.{
  holds, commit_slots, new_slot, receive_slot0, receive_slot1, is_idle, evict_slot, evict_pair,
  clear_slot,
}
use intranet_penetration_clo.Secure.Slots.History.{
  PacketId, has_id, at_epoch, contains-at_epoch, Below, at_epoch-above, Below-raise, Older,
  Remember, Remembers, extended, Recorded,
}

-- A number that follows the history of its own epoch.
Fits : PacketId → List PacketId → ReplayWindow256 × Bool → Type 0
Fits a seen r = ((r.1 && has_id a seen) ≡ false) × Tracks r.0 (at_epoch a.0 (extended r.1 a seen))

at_epoch-extended :
    (epoch sequence : ℕ) (seen : List PacketId) (r : Bool)
    → r ≡ admissible (at_epoch epoch seen) sequence
    → at_epoch epoch (extended r (epoch, sequence) seen) ≡ next (at_epoch epoch seen) sequence
unfolding next
at_epoch-extended epoch sequence seen r same = ground (arith, same)

accept-Fits :
    (w : ReplayWindow256) (epoch sequence : ℕ) (seen : List PacketId)
    → Tracks w (at_epoch epoch seen)
    → sequence < 2 ^ 32
    → Fits (epoch, sequence) seen (accept w sequence)
unfolding Fits admissible
accept-Fits w epoch sequence seen t h =
    let (same, follows) = accept-Follows w (at_epoch epoch seen) sequence t h in
    (
      ground (arith, same, contains-at_epoch epoch sequence seen),
      rw (at_epoch-extended epoch sequence seen (accept w sequence).1 same) follows,
    )

-- The other epochs keep their histories.
at_epoch-extended_ne :
    (e : ℕ) (a : PacketId) (r : Bool) (seen : List PacketId)
    → eqb a.0 e ≡ false
    → at_epoch e (extended r a seen) ≡ at_epoch e seen
at_epoch-extended_ne e a r seen n = ground (arith, n)

extended-Below :
    (top : ℕ) (a : PacketId) (r : Bool) (seen : List PacketId)
    → a.0 ≤ top
    → Below top seen
    → Below top (extended r a seen)
extended-Below top a true seen h b = (h, b)
extended-Below top a false seen h b = b

Older-extended :
    (top : ℕ) (slot : EpochRxSlot) (a : PacketId) (r : Bool) (seen : List PacketId)
    → top ≤ a.0
    → Older top slot seen
    → Older top slot (extended r a seen)
Older-extended top slot a r seen h (inl free) = inl free
Older-extended top slot a r seen h (inr (lt, t)) =
    inr (lt, rw (at_epoch-extended_ne slot.epoch a r seen (ground arith)) t)

-- A packet of the newest epoch.
receive_slot0-Recorded :
    (sequence now : ℕ) (p : SlotPair) (seen : List PacketId)
    → Remember p seen
    → sequence < 2 ^ 32
    → Recorded (p.slot0.epoch, sequence) seen (receive_slot0 sequence now p)
unfolding Fits
receive_slot0-Recorded sequence now p seen m h =
    let (new, t) = accept-Fits p.slot0.window p.slot0.epoch sequence seen m.window h in
    let r = (accept p.slot0.window sequence).1 in
    let a : PacketId = (p.slot0.epoch, sequence) in
    (
      new,
      inr (record {
        started = m.started;
        newest = extended-Below p.slot0.epoch a r seen (omega arith) m.newest;
        window = t;
        older = Older-extended p.slot0.epoch p.slot1 a r seen (omega arith) m.older;
      }),
    )

-- A packet of the epoch before.
receive_slot1-Recorded :
    (sequence now : ℕ) (p : SlotPair) (seen : List PacketId)
    → Remember p seen
    → p.slot1.epoch < p.slot0.epoch
    → Tracks p.slot1.window (at_epoch p.slot1.epoch seen)
    → sequence < 2 ^ 32
    → Recorded (p.slot1.epoch, sequence) seen (receive_slot1 sequence now p)
unfolding Fits
receive_slot1-Recorded sequence now p seen m lt tracks h =
    let (new, t) = accept-Fits p.slot1.window p.slot1.epoch sequence seen tracks h in
    let r = (accept p.slot1.window sequence).1 in
    let a : PacketId = (p.slot1.epoch, sequence) in
    (
      new,
      inr (record {
        started = m.started;
        newest = extended-Below p.slot0.epoch a r seen (omega arith) m.newest;
        window = rw (at_epoch-extended_ne p.slot0.epoch a r seen (ground arith)) m.window;
        older = inr (lt, t);
      }),
    )

-- The first packet of a new epoch, whose slot the newest one gives way to.
advance-Remember :
    (epoch now : ℕ) (p : SlotPair) (seen : List PacketId)
    → Remember p seen
    → p.slot0.epoch < epoch
    → Remember (record { slot0 = new_slot epoch now; slot1 = p.slot0 }) seen
advance-Remember epoch now p seen m lt = record {
  started = refl;
  newest = Below-raise p.slot0.epoch epoch seen (omega arith) m.newest;
  window = rw (at_epoch-above epoch p.slot0.epoch seen m.newest lt) empty-Tracks;
  older = inr (lt, m.window);
}

start-Remember :
    (epoch now : ℕ) (p : SlotPair)
    → p.slot1.valid ≡ false
    → Remember (record p { slot0 = new_slot epoch now }) []
start-Remember epoch now p free = record {
  started = refl;
  newest = tt;
  window = empty-Tracks;
  older = inl free;
}

module _ (epoch sequence now : ℕ) (p : SlotPair) where
  pub commit_free :
      p.slot0.valid ≡ false
      → commit_slots epoch sequence now p
        ≡ receive_slot0 sequence now (record p { slot0 = new_slot epoch now })
  unfolding commit_slots
  commit_free free = ground (arith, free)

  commit_newest :
      p.slot0.valid ≡ true
      → eqb p.slot0.epoch epoch ≡ true
      → commit_slots epoch sequence now p ≡ receive_slot0 sequence now p
  unfolding commit_slots
  commit_newest valid same = ground (arith, valid, same)

  commit_older :
      p.slot0.valid ≡ true
      → eqb p.slot0.epoch epoch ≡ false
      → holds epoch p.slot1 ≡ true
      → commit_slots epoch sequence now p ≡ receive_slot1 sequence now p
  unfolding commit_slots
  commit_older valid ne old = ground (arith, valid, ne, old)

  commit_later :
      p.slot0.valid ≡ true
      → holds epoch p.slot1 ≡ false
      → p.slot0.epoch < epoch
      → commit_slots epoch sequence now p
        ≡ receive_slot0 sequence now (record { slot0 = new_slot epoch now; slot1 = p.slot0 })
  unfolding commit_slots
  commit_later valid unknown later = ground (arith, valid, unknown)

  commit_refused :
      p.slot0.valid ≡ true
      → holds epoch p.slot1 ≡ false
      → epoch < p.slot0.epoch
      → commit_slots epoch sequence now p ≡ (p, false)
  unfolding commit_slots
  commit_refused valid unknown lt = ground (arith, valid, unknown)

receive_held-Recorded :
    (epoch sequence now : ℕ) (p : SlotPair) (seen : List PacketId)
    → Remember p seen
    → holds epoch p.slot1 ≡ true
    → sequence < 2 ^ 32
    → Older p.slot0.epoch p.slot1 seen
    → Recorded (epoch, sequence) seen (receive_slot1 sequence now p)
receive_held-Recorded epoch sequence now p seen m old h (inl free) =
    absurd (ground (arith, free, old))
receive_held-Recorded epoch sequence now p seen m old h (inr (lt, t)) =
    let e : epoch ≡ p.slot1.epoch = ground (arith, old) in
    rw e (receive_slot1-Recorded sequence now p seen m lt t h)

later-Recorded :
    (epoch sequence now : ℕ) (p : SlotPair) (seen : List PacketId)
    → Remember p seen
    → eqb p.slot0.epoch epoch ≡ false
    → sequence < 2 ^ 32
    → Recorded (epoch, sequence) seen (commit_slots epoch sequence now p)
later-Recorded epoch sequence now p seen m ne h = elim (Bool-cases (holds epoch p.slot1)) [
  | inl old ↦
      rw (commit_older epoch sequence now p m.started ne old)
        (receive_held-Recorded epoch sequence now p seen m old h m.older)
  | inr unknown ↦ elim (Bool-cases (ltb p.slot0.epoch epoch)) [
    | inl newer ↦ rw (commit_later epoch sequence now p m.started unknown (ground arith)) (
        receive_slot0-Recorded sequence now (record { slot0 = new_slot epoch now; slot1 = p.slot0 })
          seen (advance-Remember epoch now p seen m (ground arith)) h)
    | inr older ↦
        rw (commit_refused epoch sequence now p m.started unknown (ground arith)) (refl, inr m)
  ]
]

-- Whatever a packet's epoch, it is accepted only if it is new, and is remembered.
pub commit_slots-Recorded :
    (epoch sequence now : ℕ) (p : SlotPair) (seen : List PacketId)
    → Remembers p seen
    → sequence < 2 ^ 32
    → Recorded (epoch, sequence) seen (commit_slots epoch sequence now p)
commit_slots-Recorded epoch sequence now p seen (inl (free, (free1, none))) h =
    rw (commit_free epoch sequence now p free, none)
      (receive_slot0-Recorded sequence now (record p { slot0 = new_slot epoch now }) []
        (start-Remember epoch now p free1) h)
commit_slots-Recorded epoch sequence now p seen (inr m) h =
    elim (Bool-cases (eqb p.slot0.epoch epoch)) [
      | inl same ↦
          let e : epoch ≡ p.slot0.epoch = ground (arith, same) in
          rw (commit_newest epoch sequence now p m.started same, e)
            (receive_slot0-Recorded sequence now p seen m h)
      | inr ne ↦ later-Recorded epoch sequence now p seen m ne h
    ]

evict_busy : (now : ℕ) (slot : EpochRxSlot) → is_idle now slot ≡ false → evict_slot now slot ≡ slot
evict_busy now slot busy = ground (arith, busy)

evict-Older :
    (now top : ℕ) (slot : EpochRxSlot) (seen : List PacketId)
    → Older top slot seen
    → Older top (evict_slot now slot) seen
unfolding clear_slot
evict-Older now top slot seen o = elim (Bool-cases (is_idle now slot)) [
  | inl idle ↦ inl (ground (arith, idle))
  | inr busy ↦ rw (evict_busy now slot busy) o
]

-- Eviction forgets only the older epoch while the newest one is in use.
pub evict_pair-Remembers :
    (now : ℕ) (p : SlotPair) (seen : List PacketId)
    → is_idle now p.slot0 ≡ false
    → Remembers p seen
    → Remembers (evict_pair now p) seen
evict_pair-Remembers now p seen busy (inl (free, (free1, none))) =
    let e1 : is_idle now p.slot1 ≡ false = ground (arith, free1) in
    rw (evict_busy now p.slot0 busy, evict_busy now p.slot1 e1) (inl (free, (free1, none)))
evict_pair-Remembers now p seen busy (inr m) = rw (evict_busy now p.slot0 busy) (
    inr (record {
      started = m.started;
      newest = m.newest;
      window = m.window;
      older = evict-Older now p.slot0.epoch p.slot1 seen m.older;
    }))

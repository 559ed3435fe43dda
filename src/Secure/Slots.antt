-- ===== src/Secure/Slots.antt =====
-- The receive side of a session: `evict_old_rx_slots`, `precheck_replay` and `commit_replay` of
-- cloudflare/wasm/src/secure.rs.
pub mod History
pub mod Commit
use intranet_penetration_clo.Common.{
  ℕ, ◌+◌, ◌-◌, min, max, Bool, true, false, not, ◌&&◌, ◌||◌, eqb, ltb, leb, if◌then◌else◌,
}
use intranet_penetration_clo.Window.{ReplayWindow256, empty, clear, can_accept, accept}
use intranet_penetration_clo.Secure.{
  EpochRxSlot, SlotPair, Directed, SyncRxGrace, no_grace, Traffic, rx_epoch_idle_ms,
  max_accepted_rx_epoch_ahead,
}

abbrev pub of_direction : {A : Type 0} → Bool → Directed A → A
of_direction false both = both.0
of_direction true both = both.1

abbrev pub put_direction : {A : Type 0} → Bool → A → Directed A → Directed A
put_direction false a both = (a, both.1)
put_direction true a both = (both.0, a)

-- `EpochRxSlot::clear`
unfoldable pub clear_slot : EpochRxSlot → EpochRxSlot
clear_slot slot = record { epoch = 0; window = clear slot.window; last_rx_ms = 0; valid = false }

abbrev pub is_idle : ℕ → EpochRxSlot → Bool
is_idle now slot =
    slot.valid && not (eqb slot.last_rx_ms 0) && ltb rx_epoch_idle_ms (now - slot.last_rx_ms)

abbrev pub evict_slot : ℕ → EpochRxSlot → EpochRxSlot
evict_slot now slot = if is_idle now slot then clear_slot slot else slot

abbrev pub evict_pair : ℕ → SlotPair → SlotPair
evict_pair now p = record { slot0 = evict_slot now p.slot0; slot1 = evict_slot now p.slot1 }

abbrev pub evict_slots : ℕ → Directed SlotPair → Directed SlotPair
evict_slots now both = (evict_pair now both.0, evict_pair now both.1)

abbrev pub evict_grace : ℕ → SyncRxGrace → SyncRxGrace
evict_grace now grace =
    if grace.valid && leb grace.expires_at_ms now
    then no_grace
    else if grace.valid
    then record grace { slots = evict_slots now grace.slots }
    else grace

unfoldable pub evict_old_rx_slots : ℕ → Traffic → Traffic
evict_old_rx_slots now t = record t {
  rx_slots = evict_slots now t.rx_slots;
  sync_rx_grace = evict_grace now t.sync_rx_grace;
}

abbrev pub holds : ℕ → EpochRxSlot → Bool
holds epoch slot = slot.valid && eqb slot.epoch epoch

-- The newest epoch that is known.
abbrev pub baseline_epoch : ℕ → SlotPair → ℕ
baseline_epoch send_epoch p =
    let newest = max send_epoch p.slot0.epoch in
    if p.slot1.valid then max newest p.slot1.epoch else newest

unfoldable pub precheck_slots : ℕ → ℕ → ℕ → SlotPair → Bool
precheck_slots send_epoch epoch sequence p =
    if not p.slot0.valid
    then true
    else if eqb p.slot0.epoch epoch
    then can_accept p.slot0.window sequence
    else if holds epoch p.slot1
    then can_accept p.slot1.window sequence
    else if ltb p.slot0.epoch epoch
    then leb epoch (min (baseline_epoch send_epoch p + max_accepted_rx_epoch_ahead) 4_294_967_295)
    else false

unfoldable pub precheck_replay : ℕ → ℕ → Bool → Traffic → Bool
unfolding precheck_slots
precheck_replay epoch sequence direction t =
    let grace = of_direction direction t.sync_rx_grace.slots in
    if t.sync_rx_grace.valid && holds epoch grace.slot0
    then can_accept grace.slot0.window sequence
    else if t.sync_rx_grace.valid && holds epoch grace.slot1
    then can_accept grace.slot1.window sequence
    else precheck_slots t.send_epoch epoch sequence (of_direction direction t.rx_slots)

abbrev pub new_slot : ℕ → ℕ → EpochRxSlot
new_slot epoch now = record { epoch = epoch; window = empty; last_rx_ms = now; valid = true }

-- The slot after a packet of its epoch, and whether the window accepts it.
abbrev pub receive_in : ℕ → ℕ → EpochRxSlot → EpochRxSlot × Bool
receive_in sequence now slot =
    let (window, accepted) = accept slot.window sequence in
    (record slot { window = window; last_rx_ms = now }, accepted)

abbrev pub receive_slot0 : ℕ → ℕ → SlotPair → SlotPair × Bool
receive_slot0 sequence now p =
    let (slot, accepted) = receive_in sequence now p.slot0 in (record p { slot0 = slot }, accepted)

abbrev pub receive_slot1 : ℕ → ℕ → SlotPair → SlotPair × Bool
receive_slot1 sequence now p =
    let (slot, accepted) = receive_in sequence now p.slot1 in (record p { slot1 = slot }, accepted)

unfoldable pub commit_slots : ℕ → ℕ → ℕ → SlotPair → SlotPair × Bool
commit_slots epoch sequence now p =
    let p' = if p.slot0.valid then p else record p { slot0 = new_slot epoch now } in
    if eqb p'.slot0.epoch epoch
    then receive_slot0 sequence now p'
    else if holds epoch p'.slot1
    then receive_slot1 sequence now p'
    else if ltb p'.slot0.epoch epoch
    then receive_slot0 sequence now (record { slot0 = new_slot epoch now; slot1 = p'.slot0 })
    else (p', false)

abbrev put_grace : Bool → SlotPair × Bool → Traffic → Traffic × Bool
put_grace direction (p, accepted) t = (
  record t {
    sync_rx_grace = record t.sync_rx_grace {
      slots = put_direction direction p t.sync_rx_grace.slots;
    };
  },
  accepted,
)

abbrev pub put_slots : Bool → SlotPair × Bool → Traffic → Traffic × Bool
put_slots direction (p, accepted) t =
    (record t { rx_slots = put_direction direction p t.rx_slots }, accepted)

unfoldable pub commit_replay : ℕ → ℕ → Bool → ℕ → Traffic → Traffic × Bool
unfolding commit_slots
commit_replay epoch sequence direction now t =
    let grace = of_direction direction t.sync_rx_grace.slots in
    if t.sync_rx_grace.valid && holds epoch grace.slot0
    then put_grace direction (receive_slot0 sequence now grace) t
    else if t.sync_rx_grace.valid && holds epoch grace.slot1
    then put_grace direction (receive_slot1 sequence now grace) t
    else put_slots direction (commit_slots epoch sequence now (of_direction direction t.rx_slots)) t

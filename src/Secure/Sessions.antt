-- ===== src/Secure/Sessions.antt =====
-- The session store of cloudflare/wasm/src/secure.rs, a thread's static map: `upsert_session`,
-- `confirm_session_public_key`, and what a peer does to its own session.
pub mod Calls
pub mod Bounds
pub mod Attached
use intranet_penetration_clo.Common.{
  ℕ, ◌+◌, ◌-◌, ◌%◌, min, max, String, Bool, true, false, not, ◌||◌, Option, none, some, length, eqb,
  ltb, leb, if◌then◌else◌,
}
use intranet_penetration_clo.Common.Result.{Result, ok, err}
use intranet_penetration_clo.Common.Action.{Action}
use intranet_penetration_clo.Common.Dict.{lookup, insert, retain}
use intranet_penetration_clo.Common.Key.{pair_key, text_key, nat_key, list_key}
use intranet_penetration_clo.Packet.{Bytes}
use intranet_penetration_clo.Secure.{
  EpochRxSlot, SlotPair, Traffic, no_slots, no_grace, SessionKey, StoredSession, Store, SecureError,
  algorithm_changed, too_many_sessions, random_failed, session_gone, identity_changed,
  attachments_exhausted, session_idle_ms, max_stored_sessions, sync_rx_grace_after_ms,
}
use intranet_penetration_clo.Secure.Crypto.{SessionAction, join, sync, create}

pub record SessionSelection : Type 0 where
  pub action : SessionAction
  pub generation : ℕ
  pub root_key_for_peer : Option Bytes
  pub session_root_key : Bytes
  pub initial_epoch : ℕ

-- A session that a connection uses, or that was used lately.
abbrev pub is_kept : ℕ → StoredSession → Bool
is_kept now s = ltb 0 s.attachments || ltb (now - s.last_touch_ms) session_idle_ms

abbrev pub prune : ℕ → Store → Store
prune now = retain (λ key. is_kept now)

abbrev newer : EpochRxSlot → ℕ → ℕ
newer slot epoch = if slot.valid then max epoch slot.epoch else epoch

abbrev newest_of : SlotPair → ℕ → ℕ
newest_of p epoch = newer p.slot1 (newer p.slot0 epoch)

-- The newest epoch of either side.
abbrev pub sync_epoch : Traffic → ℕ
sync_epoch t = newest_of t.rx_slots.1 (newest_of t.rx_slots.0 t.send_epoch)

abbrev pub synced_traffic : ℕ → Traffic → Traffic
synced_traffic now t = record {
  send_epoch = (sync_epoch t + 1) % 4_294_967_296;
  send_seq = (0, 0);
  send_epoch_started_ms = now;
  send_packets_since_epoch = 0;
  rx_slots = no_slots;
  sync_rx_grace = record {
    slots = t.rx_slots;
    expires_at_ms = min (now + sync_rx_grace_after_ms) 18_446_744_073_709_551_615;
    valid = true;
  };
  decrypt_fail_count = 0;
}

abbrev pub new_traffic : ℕ → Traffic
new_traffic now = record {
  send_epoch = 0;
  send_seq = (0, 0);
  send_epoch_started_ms = now;
  send_packets_since_epoch = 0;
  rx_slots = no_slots;
  sync_rx_grace = no_grace;
  decrypt_fail_count = 0;
}

abbrev pub is_generation : ℕ → Option ℕ → Bool
is_generation generation none = false
is_generation generation (some g) = eqb g generation

abbrev pub StoreAction : Type 0 → Type 0
StoreAction A = Action SecureError Store A

abbrev pub join_session : SessionKey → ℕ → StoredSession → StoreAction SessionSelection
join_session key now s store = (
  ok (record {
    action = join;
    generation = s.generation;
    root_key_for_peer = none;
    session_root_key = s.root_key;
    initial_epoch = 0;
  }),
  insert key (record s { last_touch_ms = now }) store,
)

abbrev pub sync_session : SessionKey → ℕ → StoredSession → StoreAction SessionSelection
sync_session key now s store = (
  ok (record {
    action = sync;
    generation = s.generation;
    root_key_for_peer = some s.root_key;
    session_root_key = s.root_key;
    initial_epoch = (synced_traffic now s.traffic).send_epoch;
  }),
  insert key (record s { traffic = synced_traffic now s.traffic; last_touch_ms = now }) store,
)

abbrev pub create_session : SessionKey → ℕ → String → Option Bytes → StoreAction SessionSelection
create_session key now algorithm none store = (err random_failed, store)
create_session key now algorithm (some root_key) store = (
  ok (record {
    action = create;
    generation = 1;
    root_key_for_peer = some root_key;
    session_root_key = root_key;
    initial_epoch = 0;
  }),
  insert key
      (record {
        root_key = root_key;
        generation = 1;
        traffic = new_traffic now;
        client_algorithm = algorithm;
        remote_public_key = none;
        last_touch_ms = now;
        attachments = 0;
      })
      store,
)

unfoldable pub select_session :
    SessionKey
    → Option ℕ
    → String
    → ℕ
    → Option Bytes
    → Option StoredSession
    → StoreAction SessionSelection
select_session key generation algorithm now random none store =
    if leb max_stored_sessions (length store)
    then (err too_many_sessions, store)
    else create_session key now algorithm random store
select_session key generation algorithm now random (some s) store =
    if not (text_key.same s.client_algorithm algorithm)
    then (err algorithm_changed, store)
    else if is_generation s.generation generation
    then join_session key now s store
    else sync_session key now s store

-- `upsert_session`; `random` is what `random_32` draws.
unfoldable pub upsert_session :
    SessionKey → Option ℕ → String → ℕ → Option Bytes → StoreAction SessionSelection
unfolding select_session
upsert_session key generation algorithm now random store =
    let kept = prune now store in
    select_session key generation algorithm now random (lookup key kept) kept

-- A change of a session that must be there.
abbrev pub on_session :
    SessionKey
    → (StoredSession → Result SecureError StoredSession)
    → Option StoredSession
    → StoreAction (Unit {0})
on_session key change none store = (err session_gone, store)
on_session key change (some s) store = elim (change s) [
  | err e ↦ (err e, store)
  | ok s' ↦ (ok tt, insert key s' store)
]

abbrev pub change_session :
    SessionKey → (StoredSession → Result SecureError StoredSession) → StoreAction (Unit {0})
change_session key change store = on_session key change (lookup key store) store

-- `checked_add` on a `u32`.
abbrev pub attached : ℕ → StoredSession → Result SecureError StoredSession
attached now s =
    if leb 4_294_967_295 s.attachments
    then err attachments_exhausted
    else ok (record s { attachments = s.attachments + 1; last_touch_ms = now })

abbrev pub is_other : Bytes → Option Bytes → Bool
is_other key none = false
is_other key (some current) = not (list_key.same current key)

abbrev pub confirmed : Bytes → ℕ → StoredSession → Result SecureError StoredSession
confirmed key now s =
    if is_other key s.remote_public_key
    then err identity_changed
    else ok (record s { remote_public_key = some key; last_touch_ms = now })

abbrev pub saved : Traffic → ℕ → StoredSession → Result SecureError StoredSession
saved t now s = ok (record s { traffic = t; last_touch_ms = now })

-- The dropping of a peer takes its attachment back.
abbrev pub detached : ℕ → StoredSession → StoredSession
detached now s = record s { attachments = s.attachments - 1; last_touch_ms = now }

abbrev pub detach_in : SessionKey → ℕ → Option StoredSession → Store → Store
detach_in key now none store = store
detach_in key now (some s) store = insert key (detached now s) store

unfoldable pub attach_session : SessionKey → ℕ → StoreAction (Unit {0})
attach_session key now = change_session key (attached now)

unfoldable pub confirm_session_public_key : SessionKey → Bytes → ℕ → StoreAction (Unit {0})
confirm_session_public_key key remote now = change_session key (confirmed remote now)

unfoldable pub persist_session_state : SessionKey → Traffic → ℕ → StoreAction (Unit {0})
persist_session_state key t now = change_session key (saved t now)

unfoldable pub detach_session : SessionKey → ℕ → Store → Store
detach_session key now store = detach_in key now (lookup key store) store

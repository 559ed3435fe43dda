-- ===== src/RouteSync.antt =====
-- Route synchronisation: the class `EasyTierRpc` of cloudflare/src/core/rpc.ts. A peer is the number
-- of its connection. Everything that the class calls, the WASM core and the peer's own `encrypt` and
-- `send`, is the interface `RpcHost`, whose operations thread the state of the rest of the program;
-- the map of `RouteSyncState` is the state of this component. The map's key, a JSON text of network
-- name and peer id, is that pair.
pub mod Requests
pub mod Flush
pub mod Expiry
pub mod Effects
mod Tests
use intranet_penetration_clo.Common.{
  ℕ, ◌+◌, String, Bool, true, false, not, ◌&&◌, ◌||◌, Option, none, some, List, [], ◌∷◌, ltb, leb,
  eqb, if◌then◌else◌,
}
use intranet_penetration_clo.Common.Result.{Result, ok, err}
use intranet_penetration_clo.Common.Dict.{Dict, lookup, insert, delete}
use intranet_penetration_clo.Common.Key.{Key, pair_key, text_key, nat_key}
use intranet_penetration_clo.Packet.{Bytes, PacketError, create_packet, server_peer_id}
use intranet_penetration_clo.Packet.PacketType

abbrev pub route_sync_timeout_ms : ℕ
route_sync_timeout_ms = 3_000

abbrev pub route_maintenance_interval_ms : ℕ
route_maintenance_interval_ms = 10_000

pub record RouteSyncState : Type 0 where
  pub peer : ℕ
  pub in_flight : Bool
  pub dirty : Bool
  pub force_full : Bool
  pub sent_at : ℕ
  pub last_completed_at : ℕ

-- `routeSyncKey`
abbrev pub SyncKey : Type 0
SyncKey = String × ℕ

abbrev pub SyncStates : Type 0
SyncStates = Dict SyncKey RouteSyncState

-- What the class is given: the core's operations, and the peer's name, `encrypt` and `send`.
pub record RpcHost : Type 1 where
  pub World : Type 0
  pub Fault : Type 0
  pub key : World → ℕ → SyncKey
  pub core_add_peer : ℕ → World → Result Fault (Unit {0}) × World
  pub core_remove_peer : ℕ → World → World
  pub core_clean_expired : ℕ → World → World
  pub core_handle_request : ℕ → Bytes → ℕ → World → Result Fault Bytes × World
  pub core_handle_response : ℕ → Bytes → ℕ → World → Result Fault Bool × World
  pub core_build_route_update : ℕ → Bool → ℕ → World → Result Fault Bytes × World
  pub encrypt : ℕ → Bytes → World → Result Fault Bytes × World
  pub send : ℕ → Bytes → World → Result Fault (Unit {0}) × World
  pub packet_fault : PacketError → Fault
  pub empty_response : Fault
  pub unknown_result : Option ℕ → Fault

-- A failure of `cleanExpired`.
pub record RouteSyncFailure (Fault : Type 0) : Type 0 where
  pub peer : ℕ
  pub error : Fault

abbrev pub new_state : ℕ → RouteSyncState
new_state peer = record {
  peer = peer;
  in_flight = false;
  dirty = false;
  force_full = false;
  sent_at = 0;
  last_completed_at = 0;
}

abbrev pub state_or_new : ℕ → Option RouteSyncState → RouteSyncState
state_or_new peer none = new_state peer
state_or_new peer (some st) = st

module _ (host : RpcHost) where
  open host use {
    World, Fault, key, core_add_peer, core_remove_peer, core_clean_expired, core_handle_request,
    core_handle_response, core_build_route_update, encrypt, send, packet_fault, empty_response,
    unknown_result,
  }

  unfoldable pub send_encrypted : ℕ → Result Fault Bytes × World → Result Fault (Unit {0}) × World
  send_encrypted peer (ok packet, w) = send peer packet w
  send_encrypted peer (err e, w) = (err e, w)

  unfoldable pub send_clear : ℕ → Result PacketError Bytes → World → Result Fault (Unit {0}) × World
  send_clear peer (ok clear) w = send_encrypted peer (encrypt peer clear w)
  send_clear peer (err e) w = (err (packet_fault e), w)

  unfoldable pub send_control : ℕ → ℕ → Bytes → World → Result Fault (Unit {0}) × World
  unfolding send_clear send_encrypted
  send_control peer packet_type payload w =
      send_clear peer (create_packet server_peer_id (key w peer).1 packet_type payload) w

  -- The `catch` of `flushRouteUpdate`.
  after_send :
      RouteSyncState
      → Bool
      → Result Fault (Unit {0}) × World
      → Result Fault (Unit {0}) × RouteSyncState × World
  after_send st force_full (ok _, w) = (ok tt, st, w)
  after_send st force_full (err e, w) = (
    err e,
    record st { in_flight = false; dirty = true; force_full = st.force_full || force_full },
    w,
  )

  -- From the call of the core on, with the flags already cleared.
  after_build :
      RouteSyncState
      → Bool
      → ℕ
      → Result Fault Bytes × World
      → Result Fault (Unit {0}) × RouteSyncState × World
  after_build st force_full now (ok packet, w) =
      after_send (record st { in_flight = true; sent_at = now }) force_full
        (send_control st.peer PacketType.rpc_req packet w)
  after_build st force_full now (err e, w) = (err e, st, w)

  unfoldable pub flush_route_update :
      RouteSyncState → ℕ → World → Result Fault (Unit {0}) × RouteSyncState × World
  unfolding after_build after_send
  flush_route_update st now w =
      if st.in_flight || (not st.dirty && not st.force_full)
      then (ok tt, st, w)
      else after_build (record st { dirty = false; force_full = false }) st.force_full now
          (core_build_route_update st.peer st.force_full now w)

  -- Writes back the state object that a flush has changed in place.
  abbrev pub store :
      SyncKey
      → SyncStates
      → Result Fault (Unit {0}) × RouteSyncState × World
      → Result Fault (Unit {0}) × SyncStates × World
  store k states (r, st, w) = (r, insert k st states, w)

  unfoldable pub send_route_update :
      ℕ → Bool → ℕ → SyncStates → World → Result Fault (Unit {0}) × SyncStates × World
  send_route_update peer force_full now states w =
      let st = state_or_new peer (lookup (key w peer) states) in
      store (key w peer) states (
        flush_route_update
          (record st { peer = peer; dirty = true; force_full = st.force_full || force_full }) now w)

  -- Once the core has taken the peer, a state that an earlier connection left is dropped.
  abbrev after_add :
      SyncKey
      → SyncStates
      → Result Fault (Unit {0}) × World
      → Result Fault (Unit {0}) × SyncStates × World
  after_add k states (ok _, w) = (ok tt, delete k states, w)
  after_add k states (err e, w) = (err e, states, w)

  unfoldable pub add_peer : ℕ → SyncStates → World → Result Fault (Unit {0}) × SyncStates × World
  add_peer peer states w = after_add (key w peer) states (core_add_peer peer w)

  unfoldable pub remove_peer : ℕ → SyncStates → World → SyncStates × World
  remove_peer peer states w = (delete (key w peer) states, core_remove_peer peer w)

  abbrev pub is_expired : ℕ → RouteSyncState → Bool
  is_expired now st = st.in_flight && not (leb now (st.sent_at + route_sync_timeout_ms))

  abbrev pub failures_of :
      ℕ → Result Fault (Unit {0}) → List (RouteSyncFailure Fault) → List (RouteSyncFailure Fault)
  failures_of peer (ok _) rest = rest
  failures_of peer (err e) rest = record { peer = peer; error = e } ∷ rest

  -- The loop of `cleanExpired` over the map's values.
  unfoldable pub clean_states :
      ℕ → SyncStates → World → List (RouteSyncFailure Fault) × SyncStates × World
  clean_states now [] w = ([], [], w)
  clean_states now ((k, st) ∷ states) w =
      let stale = is_expired now st in
      let flushed =
        flush_route_update (record st { in_flight = false; dirty = true; force_full = true }) now
          w in
      let w' = if stale then flushed.2 else w in
      let rest = clean_states now states w' in
      if stale
      then (failures_of st.peer flushed.0 rest.0, (k, flushed.1) ∷ rest.1, rest.2)
      else (rest.0, (k, st) ∷ rest.1, rest.2)

  unfoldable pub clean_expired :
      ℕ → SyncStates → World → List (RouteSyncFailure Fault) × SyncStates × World
  clean_expired now states w = clean_states now states (core_clean_expired now w)

-- ===== src/RouteSync/Requests.antt =====
-- The requests and responses of route synchronisation: `handleRequest`, `handleResponse` and
-- `maintainPeer` of cloudflare/src/core/rpc.ts, as actions on the map and the rest of the state.
pub mod Completion
use intranet_penetration_clo.Common.{
  ℕ, ◌+◌, Bool, true, false, ◌||◌, Option, none, some, ltb, eqb, if◌then◌else◌, drop, get_elem?,
  length,
}
use intranet_penetration_clo.Common.Result.{Result, ok}
use intranet_penetration_clo.Common.Action.{Action, pure, raise, ◌>>=◌, ◌>>◌}
use intranet_penetration_clo.Common.Dict.{lookup}
use intranet_penetration_clo.Common.Key.{pair_key, text_key, nat_key}
use intranet_penetration_clo.Packet.{Bytes}
use intranet_penetration_clo.Packet.PacketType
use intranet_penetration_clo.RouteSync.{
  RpcHost, SyncKey, SyncStates, RouteSyncState, route_maintenance_interval_ms, send_control,
  send_route_update, flush_route_update, store,
}

-- The three results of `handleRequest` that its caller tells apart, and the fourth.
pub data RequestOutcome : Type 0 where
  handled route route_session pending : RequestOutcome

abbrev option_is : ℕ → Option ℕ → Bool
option_is n none = false
option_is n (some m) = eqb m n

module _ (host : RpcHost) where
  open host use {
    World, Fault, key, core_handle_request, core_handle_response, empty_response, unknown_result,
  }

  abbrev pub SyncAction : Type 0 → Type 0
  SyncAction A = Action Fault (SyncStates × World) A

  -- An operation on the rest of the state.
  abbrev on_world :
      {A : Type 0} → Result Fault A × World → SyncStates → Result Fault A × (SyncStates × World)
  on_world (r, w) states = (r, (states, w))

  abbrev on_both :
      Result Fault (Unit {0}) × SyncStates × World → Result Fault (Unit {0}) × (SyncStates × World)
  on_both (r, states, w) = (r, (states, w))

  abbrev send_control_action : ℕ → ℕ → Bytes → SyncAction (Unit {0})
  send_control_action peer packet_type payload s =
      on_world (send_control host peer packet_type payload s.1) s.0

  abbrev pub send_route_update_action : ℕ → Bool → ℕ → SyncAction (Unit {0})
  send_route_update_action peer force_full now s =
      on_both (send_route_update host peer force_full now s.0 s.1)

  -- The branches of `handleRequest` on the first byte of the core's answer, after the response.
  finish_request : ℕ → ℕ → Option ℕ → SyncAction RequestOutcome
  finish_request peer now head =
      if option_is 2 head
      then (do send_route_update_action peer false now; pure route)
      else if option_is 3 head
      then (do send_route_update_action peer false now; pure route_session)
      else if option_is 1 head
      then pure handled
      else raise (unknown_result head)

  answer_request : ℕ → ℕ → Bytes → SyncAction RequestOutcome
  unfolding finish_request
  answer_request peer now result =
      if option_is 0 (get_elem? result 0)
      then pure pending
      else if eqb (length result) 1
      then raise empty_response
      else (do
        send_control_action peer PacketType.rpc_resp (drop 1 result)
        finish_request peer now (get_elem? result 0))

  unfoldable pub handle_request : ℕ → Bytes → ℕ → SyncAction RequestOutcome
  unfolding answer_request
  handle_request peer payload now = do
    result ← (λ s. on_world (core_handle_request peer payload now s.1) s.0)
    answer_request peer now result

  -- The state object of a completed update, flushed again when changes have come meanwhile.
  abbrev complete_state : ℕ → RouteSyncState → RouteSyncState
  complete_state now st = record st { in_flight = false; sent_at = 0; last_completed_at = now }

  complete_update : SyncKey → ℕ → Option RouteSyncState → SyncAction (Unit {0})
  complete_update k now none s = (ok tt, s)
  complete_update k now (some st) s = on_both (
      store host k s.0 (
        if st.dirty || st.force_full
        then flush_route_update host (complete_state now st) now s.1
        else (ok tt, complete_state now st, s.1)))

  unfoldable pub handle_response : ℕ → Bytes → ℕ → SyncAction (Unit {0})
  unfolding complete_update
  handle_response peer payload now = do
    complete ← (λ s. on_world (core_handle_response peer payload now s.1) s.0)
    (λ s.
        if complete
        then complete_update (key s.1 peer) now (lookup (key s.1 peer) s.0) s
        else (ok tt, s))

  -- `state === undefined || state.inFlight || now - state.lastCompletedAt < …`
  rests : ℕ → Option RouteSyncState → Bool
  rests now none = true
  rests now (some st) =
      st.in_flight || ltb now (st.last_completed_at + route_maintenance_interval_ms)

  unfoldable pub maintain_peer : ℕ → ℕ → ℕ → SyncAction (Unit {0})
  unfolding rests
  maintain_peer peer now clock s =
      if rests now (lookup (key s.1 peer) s.0)
      then (ok tt, s)
      else send_route_update_action peer false clock s

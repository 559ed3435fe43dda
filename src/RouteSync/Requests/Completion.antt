-- ===== src/RouteSync/Requests/Completion.antt =====
-- The answer to an update: `handleResponse`.
use intranet_penetration_clo.Common.{ℕ, ◌≡◌, false, some, if◌then◌else◌}
use intranet_penetration_clo.Common.Result.{Result}
use intranet_penetration_clo.Common.Dict.{lookup}
use intranet_penetration_clo.Common.Key.{pair_key, text_key, nat_key}
use intranet_penetration_clo.RouteSync.{RpcHost, SyncKey, SyncStates, RouteSyncState}
use intranet_penetration_clo.RouteSync.Flush.Outcomes.{Flushed}

module _ (host : RpcHost) where
  open host use {World, Fault, key, core_handle_response}

  -- One key's state is what a flush leaves of the completed state, and the others are as they were.
  abbrev pub Completes :
      SyncKey
      → ℕ
      → SyncStates
      → World
      → RouteSyncState
      → SyncKey
      → Result Fault (Unit {0}) × (SyncStates × World)
      → Type 0
  Completes k now states w st j after =
      (st' : RouteSyncState) × Flushed host
        (record st { in_flight = false; sent_at = 0; last_completed_at = now }) now w after.0 st'
        after.1.1
      × (lookup j after.1.0 ≡ (if pair_key.same k j then some st' else lookup j states))

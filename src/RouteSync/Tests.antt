-- ===== src/RouteSync/Tests.antt =====
-- A small relay that sends to every peer but number 8 and builds updates for every peer but
-- number 9, and the laws of route synchronisation on it.
use intranet_penetration_clo.Common.{
  ℕ, ◌+◌, ◌≡◌, refl, Bool, true, false, some, [], ◌∷◌, eqb, if◌then◌else◌, All,
}
use intranet_penetration_clo.Common.Result.{ok, err}
use intranet_penetration_clo.Common.Dict.{lookup}
use intranet_penetration_clo.Common.Key.{pair_key, text_key, nat_key}
use intranet_penetration_clo.Packet.{create_packet, to_bytes}
use intranet_penetration_clo.RouteSync.{
  RpcHost, RouteSyncState, SyncKey, SyncStates, state_or_new, flush_route_update, send_route_update,
  clean_expired, is_expired, send_control,
}
use intranet_penetration_clo.RouteSync.Flush.{
  Asked, flush_route_update-Failed, send_route_update-Asked,
}
use intranet_penetration_clo.RouteSync.Flush.Outcomes.{Failed}
use intranet_penetration_clo.RouteSync.Expiry.{Cleaned, clean_expired-Cleaned}

abbrev host : RpcHost
host = record {
  World = ℕ;
  Fault = ℕ;
  key = λ w peer. ("home", peer);
  core_add_peer = λ peer w. (ok tt, w);
  core_remove_peer = λ peer w. w;
  core_clean_expired = λ now w. w;
  core_handle_request = λ peer payload now w. (ok (2 ∷ []), w);
  core_handle_response = λ peer payload now w. (ok true, w);
  core_build_route_update =
      λ peer force_full now w. if eqb peer 9 then (err 9, w) else (ok (1 ∷ []), w + 1);
  encrypt = λ peer packet w. (ok packet, w);
  send = λ peer packet w. if eqb peer 8 then (err 8, w) else (ok tt, w + 1);
  packet_fault = λ e. 1;
  empty_response = 2;
  unknown_result = λ head. 3;
}

abbrev state_of : ℕ → Bool → Bool → RouteSyncState
state_of peer in_flight dirty = record {
  peer = peer;
  in_flight = in_flight;
  dirty = dirty;
  force_full = false;
  sent_at = 100;
  last_completed_at = 0;
}

-- Three updates overdue, of which the last two cannot be repeated, and one that is not.
abbrev states : SyncStates
states =
    (("home", 1), state_of 1 true false)
    ∷ (("home", 8), state_of 8 true true)
    ∷ (("home", 9), state_of 9 true false)
    ∷ (("home", 2), state_of 2 false true)
    ∷ []

-- Building the update of peer 9 fails.
flush_fails :
    flush_route_update host (state_of 9 false true) 200 0
    ≡ (err 9, record (state_of 9 false true) { dirty = false; force_full = false }, 0)
unfolding flush_route_update
flush_fails = refl

flush_route_update-Failed_example :
    Failed host
      (state_of 9 false true)
      200
      0
      9
      (record (state_of 9 false true) { dirty = false; force_full = false })
      0
flush_route_update-Failed_example =
    flush_route_update-Failed host (state_of 9 false true)
      (record (state_of 9 false true) { dirty = false; force_full = false }) 200 0 0 9 refl refl
      flush_fails

-- Sending to peer 8 fails.
send_fails :
    flush_route_update host (state_of 8 false true) 200 0
    ≡ (err 8, record (state_of 8 false true) { sent_at = 200 }, 1)
unfolding flush_route_update send_control create_packet to_bytes
send_fails = refl

send_route_update-Asked_example :
    let after = send_route_update host 1 false 200 states 0 in
    (st' : RouteSyncState) × Asked host 1 false 200 0
      (state_or_new 1 (lookup ("home", 1) states))
      st'
      after.0
      after.2
    × ((j : SyncKey)
        → lookup j after.1 ≡ (if pair_key.same ("home", 1) j then some st' else lookup j states))
send_route_update-Asked_example = send_route_update-Asked host 1 false 200 states 0

clean_expired-Cleaned_example :
    Cleaned host 5000 states
      (clean_expired host 5000 states 0).1
      (clean_expired host 5000 states 0).0
    × All (λ p. is_expired host 5000 p.1 ≡ false) (clean_expired host 5000 states 0).1
clean_expired-Cleaned_example = clean_expired-Cleaned host 5000 states 0

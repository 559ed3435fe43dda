-- ===== src/Rpc/Responses.antt =====
-- The relay's own route updates: `build_route_update` and `handle_response` of
-- cloudflare/wasm/src/rpc.rs.
pub mod Once
mod Tests
use intranet_penetration_clo.Common.{
  ℕ, ◌+◌, min, String, Bool, true, false, not, ◌&&◌, ◌||◌, Option, none, some, List, [], ◌∷◌, eqb,
  ltb, if◌then◌else◌,
}
use intranet_penetration_clo.Common.Result.{Result, ok, err}
use intranet_penetration_clo.Common.Action.{Action, pure, raise, chain, ◌>>=◌, ◌>>◌, update}
use intranet_penetration_clo.Common.Dict.{lookup, insert, delete}
use intranet_penetration_clo.Common.Key.{pair_key, text_key, nat_key, bool_key}
use intranet_penetration_clo.Packet.{Bytes}
use intranet_penetration_clo.Routes.{RouteGroup, or_else}
use intranet_penetration_clo.Routes.Updates.{
  SyncResponse, RouteUpdate, on_route_session_ack, commit_route_update, build_sync_request,
}
use intranet_penetration_clo.Routes.State.{group_of, in_group}
use intranet_penetration_clo.Rpc.{RpcPacket, RpcDescriptor, RpcKey}
use intranet_penetration_clo.Rpc.Fragments.{MergedPacket, pending, complete, rpc_key, merge_packet}
use intranet_penetration_clo.Rpc.Core.{
  Codec, RpcCore, RpcAction, RpcFailure, undecodable, missing_descriptor, wrong_service,
  no_transaction, too_late, peer_rejected, transaction_disappeared, route_rejected,
  OutstandingRoute, RpcResponse, Surroundings, put_routes, put_fragments, validate_envelope,
  validate_compression, no_compression_algo, clean_rpc_state, next_transaction_id,
  route_rpc_timeout_ms,
}
use intranet_penetration_clo.Rpc.Requests.{is_service, decoded}

-- `peer_initiator.get(…).copied().unwrap_or(true)`
abbrev pub initiator_of : String → ℕ → RpcCore → Bool
initiator_of network peer_id core = or_else (lookup (network, peer_id) core.peer_initiator) true

-- The transaction that a response answers must be waiting, and in time.
unfoldable pub check_deadline : RpcKey → ℕ → Option OutstandingRoute → RpcAction (Unit {0})
check_deadline key now none core = (err no_transaction, core)
check_deadline key now (some route) core =
    if ltb route.deadline_ms now
    then (err too_late, record core { outstanding_routes = delete key core.outstanding_routes })
    else (ok tt, core)

unfoldable pub take_outstanding : RpcKey → Option OutstandingRoute → RpcAction OutstandingRoute
take_outstanding key none core = (err transaction_disappeared, core)
take_outstanding key (some route) core =
    (ok route, record core { outstanding_routes = delete key core.outstanding_routes })

abbrev pub refuse_error : {A : Type 0} → (A → RpcFailure) → Option A → RpcAction (Unit {0})
refuse_error failure none core = (ok tt, core)
refuse_error failure (some a) core = (err (failure a), core)

module _ (codec : Codec) (around : Surroundings) where
  -- The session is acknowledged before the update is committed.
  abbrev pub acknowledge : String → ℕ → ℕ → OutstandingRoute → RpcAction Bool
  acknowledge network peer_id session_id route core =
      let g = group_of core.server_peer_id around.draws network core.routes in
      let acked =
        on_route_session_ack peer_id session_id (initiator_of network peer_id core) around.clock
          g in
      let committed =
        commit_route_update peer_id route.peer_info_versions route.topology_version around.clock
          acked in
      (ok true, record core { routes = insert network committed core.routes })

  abbrev pub check_service : RpcDescriptor → RpcAction (Unit {0})
  check_service descriptor core =
      if not (is_service descriptor "OspfRouteRpc") || not (eqb descriptor.method_index 1)
      then (err wrong_service, core)
      else (ok tt, core)

  abbrev pub settle_sync : String → ℕ → RpcKey → RpcResponse → RpcAction Bool
  settle_sync network peer_id key response = do
    sync ← decoded undecodable (codec.decode_sync_response response.response)
    refuse_error route_rejected sync.error
    route ← (λ core. take_outstanding key (lookup key core.outstanding_routes) core)
    acknowledge network peer_id sync.session_id route

  -- A whole response, to the transaction of a key.
  unfoldable pub settle_response : String → ℕ → RpcKey → MergedPacket → RpcAction Bool
  settle_response network peer_id key pending = pure false
  settle_response network peer_id key (complete packet) = do
    validate_compression packet
    descriptor ← decoded missing_descriptor packet.descriptor
    check_service descriptor
    response ← decoded undecodable (codec.decode_response packet.body)
    refuse_error (λ error. peer_rejected) response.error
    settle_sync network peer_id key response

  unfoldable pub answer_outstanding : String → ℕ → RpcPacket → RpcKey → ℕ → RpcAction Bool
  unfolding check_deadline take_outstanding settle_response
  answer_outstanding network peer_id packet key now = do
    (λ core. check_deadline key now (lookup key core.outstanding_routes) core)
    merged ← (λ core. put_fragments core (merge_packet network peer_id packet now core.fragments))
    settle_response network peer_id key merged

  unfoldable pub handle_rpc_response : String → ℕ → Bytes → ℕ → RpcAction Bool
  unfolding answer_outstanding
  handle_rpc_response network peer_id payload now = do
    packet ← decoded undecodable (codec.decode_packet payload)
    validate_envelope packet network peer_id false
    answer_outstanding network peer_id packet (rpc_key network peer_id packet.transaction_id false)
        now

  abbrev pub route_descriptor : String → RpcDescriptor
  route_descriptor network = record {
    domain_name = network;
    proto_name = "OspfRouteRpc";
    service_name = "OspfRouteRpc";
    method_index = 1;
  }

  -- `now_ms.saturating_add(ROUTE_RPC_TIMEOUT_MS)`
  abbrev pub deadline_from : ℕ → ℕ
  deadline_from now = min (now + route_rpc_timeout_ms) 18_446_744_073_709_551_615

  abbrev pub register : String → ℕ → ℕ → RouteUpdate → ℕ → RpcAction Bytes
  register network peer_id now made id core = (
    ok (
        codec.encode_packet (record {
          from_peer = core.server_peer_id;
          to_peer = peer_id;
          transaction_id = id;
          descriptor = some (route_descriptor network);
          body = codec.encode_request (codec.encode_sync_request made.payload) route_rpc_timeout_ms;
          is_request = true;
          total_pieces = 1;
          piece_idx = 0;
          trace_id = 0;
          compression_info =
              some (record { algo = no_compression_algo; accepted_algo = no_compression_algo });
        })),
    record core {
      outstanding_routes =
          insert (rpc_key network peer_id id false)
            (record {
              deadline_ms = deadline_from now;
              peer_info_versions = made.peer_info_versions;
              topology_version = made.topology_version;
            })
            core.outstanding_routes;
    },
  )

  abbrev pub route_update : String → ℕ → ℕ → Bool → RpcAction RouteUpdate
  route_update network peer_id session_id full core = put_routes core (
      in_group core.server_peer_id around.draws network
        (build_sync_request core.server_peer_id peer_id session_id
          (initiator_of network peer_id core) full around.clock)
        core.routes)

  -- `build_route_update`
  unfoldable pub build_rpc_update : String → ℕ → ℕ → Bool → ℕ → RpcAction Bytes
  build_rpc_update network peer_id session_id full now = do
    update (clean_rpc_state now)
    made ← route_update network peer_id session_id full
    id ← next_transaction_id around.random_u64 network peer_id 16
    register network peer_id now made id

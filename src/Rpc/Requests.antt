-- ===== src/Rpc/Requests.antt =====
-- `handle_request` of cloudflare/wasm/src/rpc.rs: a peer's request, to the route state or the peer
-- center.
use intranet_penetration_clo.Common.{
  ℕ, String, Bool, true, false, not, ◌&&◌, ◌||◌, Option, none, some, List, [], ◌∷◌, eqb,
  if◌then◌else◌,
}
use intranet_penetration_clo.Common.Result.{ok, err}
use intranet_penetration_clo.Common.Action.{pure, ◌>>=◌, ◌>>◌}
use intranet_penetration_clo.Common.Dict.{insert}
use intranet_penetration_clo.Common.Key.{pair_key, text_key, nat_key}
use intranet_penetration_clo.Packet.{Bytes}
use intranet_penetration_clo.Routes.Updates.{SyncRequest, RouteSyncOutcome}
use intranet_penetration_clo.Routes.State.{sync_routes}
use intranet_penetration_clo.PeerCenter.{Pair, Report, GlobalMap, report_peers, get_global_peer_map}
use intranet_penetration_clo.Rpc.{RpcPacket, RpcDescriptor}
use intranet_penetration_clo.Rpc.Fragments.{MergedPacket, pending, complete, merge_packet}
use intranet_penetration_clo.Rpc.Core.{
  Codec, RpcAction, RpcFailure, undecodable, missing_descriptor, ServiceError, invalid_method,
  invalid_service, Surroundings, put_routes, put_center, put_fragments, validate_envelope,
  validate_compression, no_compression_algo, result_handled, result_route, result_route_session,
}
use Prim.Native.String.{◌++◌}

-- `is_service`
abbrev pub is_service : RpcDescriptor → String → Bool
is_service descriptor expected =
    text_key.same descriptor.service_name expected
    && (text_key.same descriptor.proto_name ("peer_rpc." ++ expected)
        || text_key.same descriptor.proto_name "peer_rpc"
        || text_key.same descriptor.proto_name expected)

-- A response body, an error, and the result for the caller.
pub record Served : Type 0 where
  pub response : Bytes
  pub error : Option ServiceError
  pub result : ℕ

abbrev pub served : Bytes → Served
served body = record { response = body; error = none; result = result_handled }

abbrev pub refused : ServiceError → Served
refused error = record { response = []; error = some error; result = result_handled }

abbrev pub decoded : {A : Type 0} → RpcFailure → Option A → RpcAction A
decoded failure none core = (err failure, core)
decoded failure (some a) core = (ok a, core)

module _ (codec : Codec) (hash : List (Pair × ℕ) → ℕ) (around : Surroundings) where
  abbrev pub route_served : RouteSyncOutcome → Served
  route_served outcome = record {
    response = codec.encode_sync_response outcome.response;
    error = none;
    result =
        if outcome.route_changed
        then result_route
        else if outcome.session_changed
        then result_route_session
        else result_handled;
  }

  abbrev pub merging : String → ℕ → RpcPacket → ℕ → RpcAction MergedPacket
  merging network peer_id packet now core =
      put_fragments core (merge_packet network peer_id packet now core.fragments)

  abbrev pub sync_with : String → ℕ → SyncRequest → RpcAction RouteSyncOutcome
  sync_with network peer_id sync core =
      let core' = record core {
        peer_initiator = insert (network, peer_id) (not sync.is_initiator) core.peer_initiator;
      } in
      put_routes core' (
        sync_routes core'.server_peer_id around.draws network peer_id sync around.clock
          core'.routes)

  unfoldable pub serve_route : String → ℕ → RpcDescriptor → Bytes → RpcAction Served
  serve_route network peer_id descriptor request =
      if not (eqb descriptor.method_index 1)
      then pure (refused (invalid_method descriptor.service_name descriptor.method_index))
      else (do
        sync ← decoded undecodable (codec.decode_sync_request request)
        outcome ← sync_with network peer_id sync
        pure (route_served outcome))

  abbrev pub take_report : String → ℕ → Report → RpcAction (Unit {0})
  take_report network peer_id report core =
      put_center core (report_peers hash network peer_id report around.clock core.peer_center)

  abbrev pub take_map : String → ℕ → RpcAction GlobalMap
  take_map network digest core =
      let (answer, center) = get_global_peer_map network digest core.peer_center in
      (ok answer, record core { peer_center = center })

  unfoldable pub serve_center : String → ℕ → RpcDescriptor → Bytes → RpcAction Served
  serve_center network peer_id descriptor request =
      if eqb descriptor.method_index 1
      then (do
        report ← decoded undecodable (codec.decode_report request)
        take_report network peer_id report
        pure (served codec.encode_report_response))
      else if eqb descriptor.method_index 2
      then (do
        digest ← decoded undecodable (codec.decode_map_request request)
        answer ← take_map network digest
        pure (served (codec.encode_global_map answer)))
      else pure (refused (invalid_method descriptor.service_name descriptor.method_index))

  unfoldable pub serve : String → ℕ → RpcDescriptor → Bytes → RpcAction Served
  unfolding serve_route serve_center
  serve network peer_id descriptor request =
      if is_service descriptor "OspfRouteRpc"
      then serve_route network peer_id descriptor request
      else if is_service descriptor "PeerCenterRpc"
      then serve_center network peer_id descriptor request
      else pure (refused (invalid_service descriptor.service_name))

  -- The response packet, after the result for the caller.
  abbrev pub answer : ℕ → RpcPacket → RpcDescriptor → Served → RpcAction Bytes
  answer peer_id packet descriptor done core = (
    ok (
        done.result
        ∷ codec.encode_packet (record {
          from_peer = core.server_peer_id;
          to_peer = peer_id;
          transaction_id = packet.transaction_id;
          descriptor = some descriptor;
          body = codec.encode_response (record { response = done.response; error = done.error });
          is_request = false;
          total_pieces = 1;
          piece_idx = 0;
          trace_id = packet.trace_id;
          compression_info =
              some (record { algo = no_compression_algo; accepted_algo = no_compression_algo });
        })),
    core,
  )

  -- A whole request.
  unfoldable pub handle_whole : String → ℕ → MergedPacket → RpcAction Bytes
  unfolding serve
  handle_whole network peer_id pending = pure (0 ∷ [])
  handle_whole network peer_id (complete packet) = do
    validate_compression packet
    descriptor ← decoded missing_descriptor packet.descriptor
    request ← decoded undecodable (codec.decode_request packet.body)
    done ← serve network peer_id descriptor request
    answer peer_id packet descriptor done

  unfoldable pub handle_rpc_request : String → ℕ → Bytes → ℕ → RpcAction Bytes
  unfolding handle_whole
  handle_rpc_request network peer_id payload now = do
    packet ← decoded undecodable (codec.decode_packet payload)
    validate_envelope packet network peer_id true
    merged ← merging network peer_id packet now
    handle_whole network peer_id merged

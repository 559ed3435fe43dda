-- ===== src/Rpc/Responses/Tests.antt =====
-- Peer 7 answers the update of transaction 5.
use intranet_penetration_clo.Common.{◌≡◌, ◌≤◌, refl, true, false, some, none, [], ◌∷◌}
use intranet_penetration_clo.Common.Result.{ok, err}
use intranet_penetration_clo.Common.Dict.{lookup, delete}
use intranet_penetration_clo.Common.Key.{pair_key, text_key, nat_key, bool_key}
use intranet_penetration_clo.Rpc.{RpcPacket}
use intranet_penetration_clo.Rpc.Fragments.{merge_packet, rpc_key}
use intranet_penetration_clo.Rpc.Core.{
  Codec, RpcCore, RpcFailure, Surroundings, OutstandingRoute, validate_envelope,
  validate_compression,
}
use intranet_penetration_clo.Rpc.Responses.{
  handle_rpc_response, answer_outstanding, settle_response, check_deadline, take_outstanding,
}
use intranet_penetration_clo.Rpc.Responses.Once.{handle_rpc_response-Once}

abbrev response_packet : RpcPacket
response_packet = record {
  from_peer = 7;
  to_peer = 10_000_001;
  transaction_id = 5;
  descriptor = some (record {
    domain_name = "home";
    proto_name = "peer_rpc";
    service_name = "OspfRouteRpc";
    method_index = 1;
  });
  body = [];
  is_request = false;
  total_pieces = 1;
  piece_idx = 0;
  trace_id = 0;
  compression_info = none;
}

-- A library that decodes everything to one response.
abbrev one_response : Codec
one_response = record {
  decode_packet = λ bytes. some response_packet;
  encode_packet = λ packet. packet.body;
  decode_request = λ bytes. none;
  encode_request = λ bytes timeout. bytes;
  decode_response = λ bytes. some (record { response = bytes; error = none });
  encode_response = λ response. response.response;
  decode_sync_request = λ bytes. none;
  encode_sync_request = λ request. [];
  decode_sync_response =
      λ bytes. some (record { is_initiator = true; session_id = 9; error = none });
  encode_sync_response = λ response. [];
  decode_report = λ bytes. none;
  encode_report_response = [];
  decode_map_request = λ bytes. none;
  encode_global_map = λ answer. [];
}

abbrev quiet : Surroundings
quiet = record {
  clock = 1_000;
  draws = record { instance = []; route_id = 3 };
  random_u64 = λ attempt. some 17;
}

abbrev waiting : RpcCore
waiting = record {
  routes = [];
  peer_center = [];
  configured_groups = [];
  peer_initiator = [];
  fragments = record { pending = []; pending_bytes = 0; pending_pieces = 0 };
  outstanding_routes =
      (
        ("home", (7, (5, false))),
        record { deadline_ms = 4_000; peer_info_versions = (8, 2) ∷ []; topology_version = some 3 },
      )
      ∷ [];
  public_key = [];
  hostname = "relay";
  server_peer_id = 10_000_001;
}

abbrev answered : RpcCore
answered = (handle_rpc_response one_response quiet "home" 7 [] 1_000 waiting).1

is_taken : handle_rpc_response one_response quiet "home" 7 [] 1_000 waiting ≡ (ok true, answered)
unfolding handle_rpc_response answer_outstanding settle_response check_deadline take_outstanding
    validate_envelope validate_compression merge_packet lookup delete
is_taken = refl

handle_rpc_response-Once_example :
    ((route : OutstandingRoute) × (lookup (rpc_key "home" 7 5 false) waiting.outstanding_routes
        ≡ some route)
      × (1_000 ≤ route.deadline_ms))
    × ((e : RpcFailure) × (handle_rpc_response one_response quiet "home" 7 (1 ∷ []) 1_500 answered
          ≡ (err e, answered)))
handle_rpc_response-Once_example =
    handle_rpc_response-Once one_response quiet "home" 7 [] (1 ∷ []) 1_000 1_500 response_packet
      response_packet waiting answered refl refl refl is_taken

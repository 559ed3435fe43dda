-- ===== src/Rpc/Isolation/Steps/Tests.antt =====
-- Peer 7 of one network reports a latency.
use intranet_penetration_clo.Common.{
  ℕ, ◌≡◌, ◌≢◌, refl, String, true, false, Option, none, some, List, [], ◌∷◌, arith,
}
use intranet_penetration_clo.Common.Key.{text_key}
use intranet_penetration_clo.Common.Dict.{lookup, insert}
use intranet_penetration_clo.PeerCenter.{Pair, report_peers, insert_reports, sorted}
use intranet_penetration_clo.PeerCenter.View.{entry_of}
use intranet_penetration_clo.Rpc.Core.{
  Codec, RpcCore, Surroundings, validate_envelope, validate_compression,
}
use intranet_penetration_clo.Rpc.Fragments.{merge_packet}
use intranet_penetration_clo.Rpc.Requests.{handle_rpc_request}
use intranet_penetration_clo.Rpc.Isolation.{IsApart}
use intranet_penetration_clo.Rpc.Isolation.Steps.{requested, RpcStep-IsApart}

-- A library that decodes everything to one report.
abbrev one_report : Codec
one_report = record {
  decode_packet = λ bytes. some (record {
    from_peer = 7;
    to_peer = 10_000_001;
    transaction_id = 5;
    descriptor = some (record {
      domain_name = "home";
      proto_name = "peer_rpc";
      service_name = "PeerCenterRpc";
      method_index = 1;
    });
    body = bytes;
    is_request = true;
    total_pieces = 1;
    piece_idx = 0;
    trace_id = 0;
    compression_info = none;
  });
  encode_packet = λ packet. packet.body;
  decode_request = λ bytes. some bytes;
  encode_request = λ bytes timeout. bytes;
  decode_response = λ bytes. none;
  encode_response = λ response. response.response;
  decode_sync_request = λ bytes. none;
  encode_sync_request = λ request. [];
  decode_sync_response = λ bytes. none;
  encode_sync_response = λ response. [];
  decode_report = λ bytes. some (record { my_peer_id = 7; direct_peers = (8, 20) ∷ [] });
  encode_report_response = [];
  decode_map_request = λ bytes. none;
  encode_global_map = λ answer. [];
}

abbrev checksum : List (Pair × ℕ) → ℕ
checksum [] = 1
checksum (entry ∷ rest) = 2

abbrev no_number : String → Option ℕ
no_number text = none

abbrev quiet : Surroundings
quiet = record {
  clock = 1_000;
  draws = record { instance = []; route_id = 3 };
  random_u64 = λ attempt. some 17;
}

abbrev new_relay : RpcCore
new_relay = record {
  routes = [];
  peer_center = [];
  configured_groups = [];
  peer_initiator = [];
  fragments = record { pending = []; pending_bytes = 0; pending_pieces = 0 };
  outstanding_routes = [];
  public_key = [];
  hostname = "relay";
  server_peer_id = 10_000_001;
}

abbrev after_report : RpcCore
after_report = (handle_rpc_request one_report checksum quiet "home" 7 (9 ∷ []) 1_000 new_relay).1

is_reported :
    entry_of "home" (7, 8) after_report.peer_center
    ≡ some (record { latency_ms = 20; update_time_ms = 1_000 })
unfolding handle_rpc_request report_peers insert_reports sorted lookup insert validate_envelope
    merge_packet validate_compression
is_reported = refl

home_or_work : ◌≢◌ {A = String} "home" "work"
home_or_work e = ground (arith, (text_key.same_iff "home" "work").1 e)

RpcStep-IsApart_example : IsApart "work" (7, 8) 7 (5, (1, false)) new_relay after_report
RpcStep-IsApart_example =
    RpcStep-IsApart one_report checksum no_number "home" "work" (7, 8) 7 (5, (1, false)) new_relay
      after_report home_or_work (requested quiet 7 (9 ∷ []) 1_000 new_relay)

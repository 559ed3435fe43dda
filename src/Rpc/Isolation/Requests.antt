-- ===== src/Rpc/Isolation/Requests.antt =====
-- A request reaches the state of its own network alone.
use intranet_penetration_clo.Common.{ℕ, refl, true, not, List, [], ◌∷◌, eqb, Bool-cases, inl, inr}
use intranet_penetration_clo.Common.Result.{ok}
use intranet_penetration_clo.Common.Action.{pure}
use intranet_penetration_clo.Common.Dict.{insert}
use intranet_penetration_clo.Common.Key.{pair_key, text_key, nat_key, bool_key}
use intranet_penetration_clo.Packet.{Bytes}
use intranet_penetration_clo.Routes.Updates.{SyncRequest}
use intranet_penetration_clo.Routes.State.{sync_routes}
use intranet_penetration_clo.PeerCenter.{Pair, Report, report_peers}
use intranet_penetration_clo.Rpc.{RpcDescriptor}
use intranet_penetration_clo.Rpc.Fragments.{MergedPacket, pending, complete, merge_packet}
use intranet_penetration_clo.Rpc.Core.{
  Codec, RpcCore, ServiceError, invalid_method, invalid_service, undecodable, missing_descriptor,
  Surroundings, validate_envelope, validate_compression,
}
use intranet_penetration_clo.Rpc.Requests.{
  refused, served, route_served, answer, is_service, decoded, serve, serve_route, serve_center,
  handle_whole, handle_rpc_request, sync_with, take_report, take_map, merging,
}
use intranet_penetration_clo.Rpc.Isolation.{
  Elsewhere, Keeps, same-Left, decoded-Keeps, validate_envelope-Keeps, validate_compression-Keeps,
  merge-Left, routes-Left, center-Left, sync_routes-other, bind-Keeps, after-Left, initiator-Apart,
  report_peers-other, get_global_peer_map-other,
}

module _ (w : Elsewhere) (codec : Codec) (hash : List (Pair × ℕ) → ℕ) (around : Surroundings) where
  sync_with-Keeps :
      (peer_id : ℕ) (sync : SyncRequest)
      → Keeps w (sync_with codec hash around w.network peer_id sync)
  sync_with-Keeps peer_id sync core =
      let core' : RpcCore = record core {
        peer_initiator = insert (w.network, peer_id) (not sync.is_initiator) core.peer_initiator;
      } in
      after-Left w core core' (sync_with codec hash around w.network peer_id sync core)
        (initiator-Apart w peer_id (not sync.is_initiator) core)
        (routes-Left w core'
          (sync_routes core.server_peer_id around.draws w.network peer_id sync around.clock
            core.routes)
          (sync_routes-other w core.server_peer_id around.draws peer_id sync around.clock
            core.routes))

  take_map-Keeps : (digest : ℕ) → Keeps w (take_map codec hash around w.network digest)
  take_map-Keeps digest core = record {
    apart = record {
      routes = refl;
      latency = get_global_peer_map-other w digest core.peer_center;
      initiator = refl;
      transaction = refl;
      identity = refl;
    };
  }

  take_report-Keeps :
      (peer_id : ℕ) (report : Report)
      → Keeps w (take_report codec hash around w.network peer_id report)
  take_report-Keeps peer_id report core =
      center-Left w core (report_peers hash w.network peer_id report around.clock core.peer_center)
        (report_peers-other w hash peer_id report around.clock core.peer_center)

  refused-Keeps : (error : ServiceError) → Keeps w (pure (refused error))
  refused-Keeps error core = same-Left w core (ok (refused error))

  serve_route-Keeps :
      (peer_id : ℕ) (descriptor : RpcDescriptor) (request : Bytes)
      → Keeps w (serve_route codec hash around w.network peer_id descriptor request)
  unfolding serve_route
  serve_route-Keeps peer_id descriptor request = elim (Bool-cases (eqb descriptor.method_index 1)) [
    | inr other ↦
        rw other (refused-Keeps (invalid_method descriptor.service_name descriptor.method_index))
    | inl sync ↦ rw sync (
        bind-Keeps w (decoded undecodable (codec.decode_sync_request request)) _
          (decoded-Keeps w undecodable (codec.decode_sync_request request))
          (λ sync.
            bind-Keeps w (sync_with codec hash around w.network peer_id sync) _
              (sync_with-Keeps peer_id sync)
              (λ outcome core. same-Left w core (ok (route_served codec hash around outcome)))))
  ]

  serve_center-Keeps :
      (peer_id : ℕ) (descriptor : RpcDescriptor) (request : Bytes)
      → Keeps w (serve_center codec hash around w.network peer_id descriptor request)
  unfolding serve_center
  serve_center-Keeps peer_id descriptor request =
      elim (Bool-cases (eqb descriptor.method_index 1)) [
        | inl report ↦ rw report (
            bind-Keeps w (decoded undecodable (codec.decode_report request)) _
              (decoded-Keeps w undecodable (codec.decode_report request))
              (λ report.
                bind-Keeps w (take_report codec hash around w.network peer_id report) _
                  (take_report-Keeps peer_id report)
                  (λ done core. same-Left w core (ok (served codec.encode_report_response)))))
        | inr no_report ↦ elim (Bool-cases (eqb descriptor.method_index 2)) [
          | inr other ↦
              rw (no_report, other)
                (refused-Keeps (invalid_method descriptor.service_name descriptor.method_index))
          | inl map ↦
              rw (no_report, map)
                (bind-Keeps w (decoded undecodable (codec.decode_map_request request)) _
                  (decoded-Keeps w undecodable (codec.decode_map_request request))
                  (λ digest.
                    bind-Keeps w (take_map codec hash around w.network digest) _
                      (take_map-Keeps digest)
                      (λ answer core.
                        same-Left w core (ok (served (codec.encode_global_map answer))))))
        ]
      ]

  serve-Keeps :
      (peer_id : ℕ) (descriptor : RpcDescriptor) (request : Bytes)
      → Keeps w (serve codec hash around w.network peer_id descriptor request)
  unfolding serve
  serve-Keeps peer_id descriptor request =
      elim (Bool-cases (is_service descriptor "OspfRouteRpc")) [
        | inl routes ↦ rw routes (serve_route-Keeps peer_id descriptor request)
        | inr no_routes ↦ elim (Bool-cases (is_service descriptor "PeerCenterRpc")) [
          | inl center ↦ rw (no_routes, center) (serve_center-Keeps peer_id descriptor request)
          | inr other ↦
              rw (no_routes, other) (refused-Keeps (invalid_service descriptor.service_name))
        ]
      ]

  handle_whole-Keeps :
      (peer_id : ℕ) (merged : MergedPacket)
      → Keeps w (handle_whole codec hash around w.network peer_id merged)
  unfolding handle_whole
  handle_whole-Keeps peer_id pending core = same-Left w core (ok (0 ∷ []))
  handle_whole-Keeps peer_id (complete packet) core =
      bind-Keeps w (validate_compression packet) _ (validate_compression-Keeps w packet)
        (λ _.
          bind-Keeps w (decoded missing_descriptor packet.descriptor) _
            (decoded-Keeps w missing_descriptor packet.descriptor)
            (λ descriptor.
              bind-Keeps w (decoded undecodable (codec.decode_request packet.body)) _
                (decoded-Keeps w undecodable (codec.decode_request packet.body))
                (λ request.
                  bind-Keeps w (serve codec hash around w.network peer_id descriptor request) _
                    (serve-Keeps peer_id descriptor request)
                    (λ done core.
                      same-Left w core
                        (answer codec hash around peer_id packet descriptor done core).0))))
        core

  pub handle_rpc_request-Keeps :
      (peer_id : ℕ) (payload : Bytes) (now : ℕ)
      → Keeps w (handle_rpc_request codec hash around w.network peer_id payload now)
  unfolding handle_rpc_request
  handle_rpc_request-Keeps peer_id payload now =
      bind-Keeps w (decoded undecodable (codec.decode_packet payload)) _
        (decoded-Keeps w undecodable (codec.decode_packet payload))
        (λ packet.
          bind-Keeps w (validate_envelope packet w.network peer_id true) _
            (validate_envelope-Keeps w packet w.network peer_id true)
            (λ _.
              bind-Keeps w (merging codec hash around w.network peer_id packet now) _
                (λ core.
                  merge-Left w core (merge_packet w.network peer_id packet now core.fragments))
                (λ merged. handle_whole-Keeps peer_id merged)))

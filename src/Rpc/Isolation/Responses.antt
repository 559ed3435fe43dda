-- ===== src/Rpc/Isolation/Responses.antt =====
-- A response, and the peers that join and leave, reach the state of their own network alone.
use intranet_penetration_clo.Common.{
  ℕ, refl, false, not, ◌||◌, Option, none, some, eqb, Bool-cases, inl, inr, ltb,
}
use intranet_penetration_clo.Common.Result.{ok, err}
use intranet_penetration_clo.Common.Dict.{delete, lookup-delete_ne}
use intranet_penetration_clo.Common.Key.{pair_key, text_key, nat_key, bool_key}
use intranet_penetration_clo.Packet.{Bytes}
use intranet_penetration_clo.Rpc.{RpcPacket, RpcDescriptor}
use intranet_penetration_clo.Rpc.Fragments.{MergedPacket, pending, complete, merge_packet, rpc_key}
use intranet_penetration_clo.Rpc.Core.{
  Codec, RpcCore, RpcResponse, undecodable, missing_descriptor, no_transaction,
  transaction_disappeared, wrong_service, peer_rejected, route_rejected, RpcFailure, Surroundings,
  OutstandingRoute, validate_envelope, validate_compression,
}
use intranet_penetration_clo.Rpc.Requests.{is_service, decoded}
use intranet_penetration_clo.Rpc.Responses.{
  handle_rpc_response, answer_outstanding, settle_response, settle_sync, check_service, acknowledge,
  check_deadline, take_outstanding, refuse_error,
}
use intranet_penetration_clo.Rpc.Isolation.{
  Elsewhere, Apart, Left, Keeps, same-Left, decoded-Keeps, validate_envelope-Keeps,
  validate_compression-Keeps, merge-Left, insert-other, bind-Keeps, pair_ne,
}

module _ (w : Elsewhere) where
  delete-Apart :
      (peer_id id : ℕ) (core : RpcCore)
      → Apart w core (record core {
        outstanding_routes = delete (rpc_key w.network peer_id id false) core.outstanding_routes;
      })
  delete-Apart peer_id id core = record {
    routes = refl;
    latency = refl;
    initiator = refl;
    transaction =
        lookup-delete_ne (rpc_key w.network peer_id id false) (w.other, w.rest)
          core.outstanding_routes (pair_ne w (peer_id, (id, false)) w.rest);
    identity = refl;
  }

  check_deadline-Left :
      (peer_id id now : ℕ) (o : Option OutstandingRoute) (core : RpcCore)
      → Left w core (check_deadline (rpc_key w.network peer_id id false) now o core)
  unfolding check_deadline
  check_deadline-Left peer_id id now none core = same-Left w core (err no_transaction)
  check_deadline-Left peer_id id now (some route) core =
      elim (Bool-cases (ltb route.deadline_ms now)) [
        | inl late ↦ rw late (record { apart = delete-Apart peer_id id core })
        | inr timely ↦ rw timely (same-Left w core (ok tt))
      ]

  take_outstanding-Left :
      (peer_id id : ℕ) (o : Option OutstandingRoute) (core : RpcCore)
      → Left w core (take_outstanding (rpc_key w.network peer_id id false) o core)
  unfolding take_outstanding
  take_outstanding-Left peer_id id none core = same-Left w core (err transaction_disappeared)
  take_outstanding-Left peer_id id (some route) core = record {
    apart = delete-Apart peer_id id core;
  }

  refuse_error-Keeps :
      {A : Type 0} (failure : A → RpcFailure) (o : Option A) → Keeps w (refuse_error failure o)
  refuse_error-Keeps failure none core = same-Left w core (ok tt)
  refuse_error-Keeps failure (some a) core = same-Left w core (err (failure a))

  module _ (codec : Codec) (around : Surroundings) where
    check_service-Keeps :
        (descriptor : RpcDescriptor) → Keeps w (check_service codec around descriptor)
    check_service-Keeps descriptor core =
        elim (Bool-cases
          (not (is_service descriptor "OspfRouteRpc") || not (eqb descriptor.method_index 1))) [
            | inl wrong ↦ rw wrong (same-Left w core (err wrong_service))
            | inr right ↦ rw right (same-Left w core (ok tt))
          ]

    acknowledge-Keeps :
        (peer_id session_id : ℕ) (route : OutstandingRoute)
        → Keeps w (acknowledge codec around w.network peer_id session_id route)
    acknowledge-Keeps peer_id session_id route core = record {
      apart = record {
        routes = insert-other w _ core.routes;
        latency = refl;
        initiator = refl;
        transaction = refl;
        identity = refl;
      };
    }

    settle_sync-Keeps :
        (peer_id id : ℕ) (response : RpcResponse)
        → Keeps w (
            settle_sync codec around w.network peer_id
              (rpc_key w.network peer_id id false)
              response)
    settle_sync-Keeps peer_id id response =
        bind-Keeps w (decoded undecodable (codec.decode_sync_response response.response)) _
          (decoded-Keeps w undecodable (codec.decode_sync_response response.response))
          (λ sync.
            bind-Keeps w (refuse_error route_rejected sync.error) _
              (refuse_error-Keeps route_rejected sync.error)
              (λ _.
                bind-Keeps w _ _ (λ core. take_outstanding-Left peer_id id _ core)
                  (λ route. acknowledge-Keeps peer_id sync.session_id route)))

    settle_response-Keeps :
        (peer_id id : ℕ) (merged : MergedPacket)
        → Keeps w (
            settle_response codec around w.network peer_id
              (rpc_key w.network peer_id id false)
              merged)
    unfolding settle_response
    settle_response-Keeps peer_id id pending core = same-Left w core (ok false)
    settle_response-Keeps peer_id id (complete packet) core =
        bind-Keeps w (validate_compression packet) _ (validate_compression-Keeps w packet)
          (λ _.
            bind-Keeps w (decoded missing_descriptor packet.descriptor) _
              (decoded-Keeps w missing_descriptor packet.descriptor)
              (λ descriptor.
                bind-Keeps w (check_service codec around descriptor) _
                  (check_service-Keeps descriptor)
                  (λ _.
                    bind-Keeps w (decoded undecodable (codec.decode_response packet.body)) _
                      (decoded-Keeps w undecodable (codec.decode_response packet.body))
                      (λ response.
                        bind-Keeps w (refuse_error (λ error. peer_rejected) response.error) _
                          (refuse_error-Keeps (λ error. peer_rejected) response.error)
                          (λ _. settle_sync-Keeps peer_id id response)))))
          core

    answer_outstanding-Keeps :
        (peer_id : ℕ) (packet : RpcPacket) (id now : ℕ)
        → Keeps w (
            answer_outstanding codec around w.network peer_id packet
              (rpc_key w.network peer_id id false)
              now)
    unfolding answer_outstanding
    answer_outstanding-Keeps peer_id packet id now =
        bind-Keeps w _ _ (λ core. check_deadline-Left peer_id id now _ core)
          (λ _.
            bind-Keeps w _ _
              (λ core. merge-Left w core (merge_packet w.network peer_id packet now core.fragments))
              (λ merged. settle_response-Keeps peer_id id merged))

    pub handle_rpc_response-Keeps :
        (peer_id : ℕ) (payload : Bytes) (now : ℕ)
        → Keeps w (handle_rpc_response codec around w.network peer_id payload now)
    unfolding handle_rpc_response
    handle_rpc_response-Keeps peer_id payload now =
        bind-Keeps w (decoded undecodable (codec.decode_packet payload)) _
          (decoded-Keeps w undecodable (codec.decode_packet payload))
          (λ packet.
            bind-Keeps w (validate_envelope packet w.network peer_id false) _
              (validate_envelope-Keeps w packet w.network peer_id false)
              (λ _. answer_outstanding-Keeps peer_id packet packet.transaction_id now))
